-- ===== src/Gateway/Stubs.antt =====
-- The addresses at which a gateway calls the chat server and the relation server, in
-- src/gateway/websocket_session.cpp.
use my_tiny_im.Base.Text.{Text, bytes}
use my_tiny_im.Json.{JsonLib}
use my_tiny_im.Config.{get_string}

module _ (js : JsonLib) (config : js.Value) where
  -- GetChatStub
  unfoldable pub chat_addr : Text
  chat_addr = get_string js config (bytes "chat_service.addr") (bytes "127.0.0.1:50052")

  -- GetRelationStub
  unfoldable pub relation_addr : Text
  relation_addr = get_string js config (bytes "relation_service.addr") (bytes "127.0.0.1:50053")

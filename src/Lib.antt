-- ===== src/Lib.antt =====
-- MyTinyIM: the back end of a small instant-messaging system. A client holds a WebSocket to a
-- gateway; the gateway turns its packets into calls of the chat, relation and auth servers; the
-- chat server stores a message once, writes an index row with a sequence number for each
-- recipient, and has the gateways notify the recipients, who then pull what is new. A login kicks
-- the device that it replaces through a Redis channel that every gateway listens to.
--
-- The files, and the code that each is about (paths from the repository's root):
--   Base: truth values, lists, byte texts, 64-bit integers in decimal, maps; no code of its own.
--   Services: what the code calls and the repository does not contain (MySQL, Redis, gRPC, the
--     clock, random numbers). Each call is answered as a function of all calls before it.
--     Services/Mysql is DBConn of src/common/db_pool.h, Services/Redis the commands of
--     src/common/redis_client.cpp, Services/Pool its contexts and Services/Subscribe its
--     subscription; Services/Memory says what Redis holds after some commands; Services/Trace and
--     Services/Leaves are rules for what a handler adds to the calls.
--   Json: the JSON library, a parameter.
--   Config: src/common/config.h.
--   Packet: src/common/packet.h and the loop of WebsocketSession::OnRead.
--   Gateway/Writer: Send, Kick, DoWrite, OnWrite and Close of src/gateway/websocket_session.cpp.
--   Gateway/Connections: src/gateway/connection_manager.cpp.
--   Gateway/Service: src/gateway/gateway_service_impl.cpp and the listener in src/gateway/main.cpp.
--   Gateway/Session: OnAccept and the commands of OnRead in src/gateway/websocket_session.cpp.
--   Gateway/Upgrade: the WebSocket upgrade in src/gateway/http_session.cpp.
--   Gateway/Routes: the JSON routes in src/gateway/http_session.cpp, and its connection.
--   Gateway/Acceptor: src/gateway/server.h. Gateway/Stubs: the addresses of the stubs of
--     src/gateway/websocket_session.cpp.
--   Chat: SendMessage (Chat/Send) and SyncMessages (Chat/Sync) of
--     src/chat_server/chat_service_impl.cpp.
--   Relation: src/user_server/relation_service_impl.cpp (Relation/Friends, Relation/Groups).
--   Auth: Register and Logout (Auth/Account) and Login (Auth/Login) of
--     src/auth_server/auth_service_impl.cpp.
--   DbPool: src/common/db_pool.cpp, with its end (DbPool/Close).
--   Registry: src/common/service_registry.cpp and src/dispatch/service_discovery.h; Registry/Keys
--     says what Redis holds under a key, and Registry/Discovery puts the two parts together.
--   Rpc: the auth server's stub, a parameter, and src/common/grpc_channel_pool.h (Rpc/Channels).
--   Http: requests, responses and the JSON bodies that both HTTP servers read.
--   Dispatch: src/dispatch/main.cpp; Dispatch/Server puts the auth server behind its stub.
--   Startup: the main functions of the five servers.
--   Admission: Login and the WebSocket upgrade together, over one Redis.
--   Notification: SendMessage and PushNotify together, from a message to the receiver's sessions.
--   Tests: runs on concrete inputs.
--
-- A handler is a function of the history of external calls, newest first, to its outcome and the
-- new history. The outcome is a value, an exception, or the use of a null pointer. The read loop
-- runs on fuel, the length of its buffer: each round takes a header of nine bytes. The histories of
-- a session's write side, of the database pools and of the Redis contexts are relations, with one
-- constructor for each call; a call of a pool is cut where it waits, and GetContext where it gives
-- up the mutex.
--
-- The JSON library and the stubs are records of functions: a theorem holds for all of them, and one
-- that needs a property of theirs (Redis keeps what HSET stored, an empty JSON has no member, dump()
-- writes a value) has it as a hypothesis. Where the code walks an unordered_map, the events are
-- compared as a bag (Base/Bag). The connection of the dispatch server is a relation over the orders
-- in which reads and writes complete.
--
-- Not modelled: logging, the framing of HTTP (Beast) and sockets (Asio), threads other than as
-- sequences of calls (a mutex or a strand orders them), deadlines, the test client, the web client,
-- the scripts. An acceptor is the sequence of its completions.
pub mod Base
pub mod Services
pub mod Json
pub mod Config
pub mod Packet
pub mod Chat
pub mod Relation
pub mod Auth
pub mod Rpc
pub mod Http
pub mod Registry
pub mod DbPool
pub mod Gateway
pub mod Dispatch
pub mod Startup
pub mod Tests
pub mod Admission
pub mod Notification

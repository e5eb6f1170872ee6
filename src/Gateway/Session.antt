-- ===== src/Gateway/Session.antt =====
-- A session's commands: `OnAccept`, the branches of `OnRead` and its ends in
-- src/gateway/websocket_session.cpp. The protobuf code and the servers that are called are
-- parameters.
pub mod Own
pub mod Lifecycle
pub mod Identity
use mathlib.Core.Option
use my_tiny_im.Packet.Commands.{
  cmd_friend_accept_req, cmd_friend_accept_resp, cmd_friend_apply_req, cmd_friend_apply_resp,
  cmd_friend_list_req, cmd_friend_list_resp, cmd_group_accept_req, cmd_group_accept_resp,
  cmd_group_apply_req, cmd_group_apply_resp, cmd_group_create_req, cmd_group_create_resp,
  cmd_group_join_req, cmd_group_join_resp, cmd_group_list_req, cmd_group_list_resp,
  cmd_heartbeat_req, cmd_heartbeat_resp, cmd_login_req, cmd_login_resp, cmd_msg_send_req,
  cmd_msg_send_resp, cmd_msg_sync_req, cmd_msg_sync_resp,
}
use my_tiny_im.Base.{
  ℕ, ◌+◌, Bool, true, false, not, Option, none, some, List, [], ◌∷◌, ◌++◌, ◌==◌, if◌then◌else◌,
}
use my_tiny_im.Base.Text.{Text, bytes, c_str}
use my_tiny_im.Base.Int.{ℤ, pos, is_positive, stoll, to_string}
use my_tiny_im.Packet.{ReadResult}
use my_tiny_im.Chat.{SendMessageReq, SendMessageResp, SyncMessagesReq, SyncMessagesResp}
use my_tiny_im.Chat.Sync.{empty_page}
use my_tiny_im.Relation.Friends.{ApplyFriendReq, AcceptFriendReq}
use my_tiny_im.Relation.Groups.{CreateGroupReq, JoinGroupReq, ApplyGroupReq, AcceptGroupReq}

-- The requests to the relation server.
pub data RelationReq : Type 0 where
  apply_friend_req : ApplyFriendReq → RelationReq
  accept_friend_req : AcceptFriendReq → RelationReq
  friend_list_req : ℤ → RelationReq
  create_group_req : CreateGroupReq → RelationReq
  join_group_req : JoinGroupReq → RelationReq
  group_list_req : ℤ → RelationReq
  apply_group_req : ApplyGroupReq → RelationReq
  accept_group_req : AcceptGroupReq → RelationReq

-- What a session asks of the outside.
pub data SessionCall : Type 0 where
  chat_call : SendMessageReq → SessionCall
  sync_call : SyncMessagesReq → SessionCall
  relation_call : RelationReq → SessionCall
  join_call : ℤ → SessionCall
  leave_call : ℤ → SessionCall
  -- HSet and HDel of a location: key, device, address
  hset_call : Text → Text → Text → SessionCall
  hdel_call : Text → Text → SessionCall
  packet_call : ℕ → Text → SessionCall

-- The calls so far, newest first.
pub record Session : Type 0 where
  pub user_id : ℤ
  pub device : Text
  pub calls : List SessionCall

-- A grpc::Status that is not OK has a message.
pub record Peers : Type 0 where
  pub parse_send : Text → Option SendMessageReq
  pub parse_sync : Text → Option SyncMessagesReq
  -- the username of a LoginReq
  pub parse_login : Text → Option Text
  pub parse_apply_friend : Text → Option ApplyFriendReq
  pub parse_accept_friend : Text → Option AcceptFriendReq
  pub parse_create_group : Text → Option CreateGroupReq
  pub parse_join_group : Text → Option JoinGroupReq
  pub parse_apply_group : Text → Option ApplyGroupReq
  pub parse_accept_group : Text → Option AcceptGroupReq
  pub send_answer : List SessionCall → SendMessageReq → Option Text × SendMessageResp
  pub sync_answer : List SessionCall → SyncMessagesReq → Option Text × SyncMessagesResp
  -- the serialized response of the relation server
  pub relation_answer : List SessionCall → RelationReq → Text
  pub serialize_send : SendMessageResp → Text
  pub serialize_sync : SyncMessagesResp → Text
  -- a LoginResp with success and this user_id
  pub serialize_login : ℤ → Text
  -- the port of local_endpoint(), which may raise
  pub local_port : Option ℕ

abbrev pub call : SessionCall → Session → Session
call c s = record s { calls = c ∷ s.calls }

unfoldable pub location_key : ℤ → Text
location_key user_id = bytes "im:location:" ++ to_string user_id

unfoldable pub grpc_addr : ℕ → Text
grpc_addr port = bytes "127.0.0.1:" ++ to_string (pos (port + 10000))

-- With the error's message put into the response.
abbrev pub client_resp : Option Text × SendMessageResp → SendMessageResp
client_resp (none, resp) = resp
client_resp (some message, resp) = record resp { success = false; error_message = message }

abbrev pub sync_or_empty : Option Text × SyncMessagesResp → SyncMessagesResp
sync_or_empty (none, resp) = resp
sync_or_empty (some message, resp) = empty_page

-- The overwritten user of a request.
abbrev pub as_user : ℤ → RelationReq → RelationReq
as_user u (apply_friend_req r) = apply_friend_req (record r { user_id = u })
as_user u (accept_friend_req r) = accept_friend_req (record r { user_id = u })
as_user u (friend_list_req v) = friend_list_req u
as_user u (create_group_req r) = create_group_req (record r { owner_id = u })
as_user u (join_group_req r) = join_group_req (record r { user_id = u })
as_user u (group_list_req v) = group_list_req u
as_user u (apply_group_req r) = apply_group_req (record r { user_id = u })
as_user u (accept_group_req r) = accept_group_req (record r { user_id = u })

module _ (peers : Peers) where
  on_send : Option SendMessageReq → Session → Session
  on_send none s = s
  on_send (some parsed) s =
      let req = record parsed { sender_id = s.user_id } in
      call
        (packet_call cmd_msg_send_resp
          (peers.serialize_send (client_resp (peers.send_answer s.calls req))))
        (call (chat_call req) s)

  on_sync : Option SyncMessagesReq → Session → Session
  on_sync none s = s
  on_sync (some parsed) s =
      let req = record parsed { user_id = s.user_id } in
      call
        (packet_call cmd_msg_sync_resp
          (peers.serialize_sync (sync_or_empty (peers.sync_answer s.calls req))))
        (call (sync_call req) s)

  -- The branches for the relation server: the response's command, and the parsed request.
  on_relation : ℕ → Option RelationReq → Session → Session
  on_relation resp_cmd none s = s
  on_relation resp_cmd (some parsed) s =
      let req = as_user s.user_id parsed in
      call (packet_call resp_cmd (peers.relation_answer s.calls req)) (call (relation_call req) s)

  register_location : Option ℕ → Session → Session
  register_location none s = s
  register_location (some port) s =
      call (packet_call cmd_login_resp (peers.serialize_login s.user_id))
        (call (hset_call (location_key s.user_id) s.device (grpc_addr port)) s)

  -- The late registration, once the user name is a number.
  late_login : Option ℤ → Session → Session
  unfolding register_location
  late_login none s = s
  late_login (some user_id) s =
      register_location peers.local_port (call (join_call user_id) (record s { user_id = user_id }))

  on_login_req : Option Text → Session → Session
  unfolding late_login
  on_login_req none s = s
  on_login_req (some username) s = late_login (stoll (c_str username)) s

  pub on_login : Text → Session → Session
  unfolding on_login_req
  on_login body s =
      if is_positive s.user_id
      then call (packet_call cmd_login_resp []) s
      else on_login_req (peers.parse_login body) s

  -- The branches of OnRead on a command.
  unfoldable pub on_packet : Session → ℕ → Text → Session
  unfolding on_send on_sync on_relation on_login
  on_packet s cmd body =
      if cmd == cmd_msg_send_req
      then on_send (peers.parse_send body) s
      else if cmd == cmd_friend_apply_req
      then on_relation cmd_friend_apply_resp
          (Option.map apply_friend_req (peers.parse_apply_friend body)) s
      else if cmd == cmd_friend_accept_req
      then on_relation cmd_friend_accept_resp
          (Option.map accept_friend_req (peers.parse_accept_friend body)) s
      else if cmd == cmd_friend_list_req
      then on_relation cmd_friend_list_resp (some (friend_list_req s.user_id)) s
      else if cmd == cmd_group_create_req
      then on_relation cmd_group_create_resp
          (Option.map create_group_req (peers.parse_create_group body)) s
      else if cmd == cmd_group_join_req
      then on_relation cmd_group_join_resp (Option.map join_group_req (peers.parse_join_group body))
          s
      else if cmd == cmd_group_list_req
      then on_relation cmd_group_list_resp (some (group_list_req s.user_id)) s
      else if cmd == cmd_group_apply_req
      then on_relation cmd_group_apply_resp
          (Option.map apply_group_req (peers.parse_apply_group body)) s
      else if cmd == cmd_group_accept_req
      then on_relation cmd_group_accept_resp
          (Option.map accept_group_req (peers.parse_accept_group body)) s
      else if cmd == cmd_msg_sync_req
      then on_sync (peers.parse_sync body) s
      else if cmd == cmd_heartbeat_req
      then call (packet_call cmd_heartbeat_resp []) s
      else if cmd == cmd_login_req
      then on_login body s
      else s

  locate : Option ℕ → Session → Session
  locate none s = s
  locate (some port) s = call (hset_call (location_key s.user_id) s.device (grpc_addr port)) s

  -- OnAccept without an error, up to its read.
  unfoldable pub on_accept : Session → Session
  unfolding locate
  on_accept s =
      if is_positive s.user_id then locate peers.local_port (call (join_call s.user_id) s) else s

-- OnRead with an error, the end of the stream included.
unfoldable pub on_closed : Session → Session
on_closed s = call (leave_call s.user_id) (call (hdel_call (location_key s.user_id) s.device) s)

-- The end of a connection: the read that is under way completes with an error. There is none once
-- OnRead has closed the socket itself, for a wrong magic, and has returned.
unfoldable pub on_end : ReadResult Session → Session
on_end r = if r.open_ then on_closed r.state else r.state

-- ===== src/Tests/Session.antt =====
-- Runs of a session's commands.
use my_tiny_im.Packet.Commands.{cmd_login_req}
use my_tiny_im.Base.{◌≡◌, ◌⊎◌, refl, true, false, none, some, List, [], ◌∷◌, ◌++◌, All}
use my_tiny_im.Base.Text.{Text, bytes}
use my_tiny_im.Base.Int.{pos, to_string}
use my_tiny_im.Packet.{fresh, receive_all, packet_bytes}
use my_tiny_im.Chat.{SendMessageReq, blank}
use my_tiny_im.Chat.Sync.{empty_page}
use my_tiny_im.Gateway.Session.{
  SessionCall, join_call, leave_call, hset_call, hdel_call, Session, Peers, location_key, grpc_addr,
  on_packet, on_accept, on_end,
}
use my_tiny_im.Gateway.Session.Own.{IsOwn, ActsAs, on_packet-ActsAs}
use my_tiny_im.Gateway.Session.Lifecycle.{on_end-on_accept}
use my_tiny_im.Gateway.Session.Identity.{TakesUser, user_from_login}

-- A message that claims to come from user 9.
abbrev forged : SendMessageReq
forged = record {
  sender_id = pos 9;
  receiver_id = pos 2;
  group_id = pos 0;
  type = pos 0;
  content = bytes "hi";
}

abbrev peers : Peers
peers = record {
  parse_send = λ body. some forged;
  parse_sync = λ body. none;
  parse_login = λ body. some body;
  parse_apply_friend = λ body. none;
  parse_accept_friend = λ body. none;
  parse_create_group = λ body. none;
  parse_join_group = λ body. none;
  parse_apply_group = λ body. none;
  parse_accept_group = λ body. none;
  send_answer = λ calls req. (none, record blank { success = true });
  sync_answer = λ calls req. (none, empty_page);
  relation_answer = λ calls req. [];
  serialize_send = λ resp. bytes "sent";
  serialize_sync = λ resp. [];
  serialize_login = λ user_id. bytes "welcome";
  local_port = some 8080;
}

abbrev user_7 : Session
user_7 = record { user_id = pos 7; device = bytes "PC"; calls = [] }

abbrev sent : Text
sent = packet_bytes 0x2001 (bytes "{}")

on_packet-ActsAs_example : ActsAs user_7 (on_packet peers user_7 0x2001 (bytes "{}"))
on_packet-ActsAs_example = on_packet-ActsAs peers user_7 0x2001 (bytes "{}") refl

-- A packet, and then bytes with a wrong magic.
abbrev two_messages : List Text
two_messages = sent ∷ bytes "not a packet" ∷ []

on_end-on_accept_example :
    let r = receive_all (on_packet peers) (fresh (on_accept peers user_7)) two_messages in
    (new : List SessionCall) × (r.state.calls
      ≡ new
        ++ hset_call (location_key (pos 7)) (bytes "PC") (grpc_addr 8080) ∷ join_call (pos 7) ∷ [])
    × All (IsOwn (pos 7)) new
    × (((r.open_ ≡ true)
          × ((on_end r).calls
              ≡ leave_call (pos 7) ∷ hdel_call (location_key (pos 7)) (bytes "PC") ∷ r.state.calls))
        ⊎ ((r.open_ ≡ false) × ((on_end r).calls ≡ r.state.calls)))
on_end-on_accept_example = on_end-on_accept peers user_7 two_messages 8080 refl refl

-- A session without a user that says it is user 42.
abbrev nobody : Session
nobody = record { user_id = pos 0; device = bytes "PC"; calls = [] }

user_from_login_example :
    ActsAs nobody (on_packet peers nobody cmd_login_req (to_string (pos 42)))
    ⊎ ((cmd_login_req ≡ cmd_login_req)
        × TakesUser peers nobody
            (to_string (pos 42))
            peers.local_port
            (on_packet peers nobody cmd_login_req (to_string (pos 42))))
user_from_login_example = user_from_login peers nobody cmd_login_req (to_string (pos 42))

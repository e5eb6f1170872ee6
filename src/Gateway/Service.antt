-- ===== src/Gateway/Service.antt =====
-- What other servers ask of a gateway: `PushNotify` and `KickUser` of
-- src/gateway/gateway_service_impl.cpp, and the listener on the channel "im:kick" in
-- src/gateway/main.cpp.
pub mod Kick
pub mod Listener
use my_tiny_im.Packet.Commands.{cmd_msg_push_notify}
use my_tiny_im.Base.{ℕ, suc, ◌≡◌, refl, Option, none, some, List, [], ◌∷◌, take, drop}
use my_tiny_im.Base.Text.{Text, find, c_str}
use my_tiny_im.Base.Int.{ℤ, stoll}
use my_tiny_im.Services.{Outcome, ok, thrown, fault}
use my_tiny_im.Packet.{packet_bytes}
use my_tiny_im.Gateway.Connections.{Users, SessionCall, send_to_user, kick_user}

-- PushNotify; `serialize` is the protobuf text of a MsgPushNotify with a max_seq and a type.
unfoldable pub push_notify_user : (ℤ → ℤ → Text) → ℤ → ℤ → ℤ → Users → List SessionCall
push_notify_user serialize user_id max_seq msg_type users =
    send_to_user user_id (packet_bytes cmd_msg_push_notify (serialize max_seq msg_type)) users

-- KickUser
unfoldable pub kick_user_call : (ℕ → Text) → ℤ → Text → Users → List SessionCall
kick_user_call get_device user_id device users = kick_user get_device user_id device users

kick_at : (ℕ → Text) → Text → Text → Users → Outcome (List SessionCall)
kick_at get_device uid device users = elim (stoll (c_str uid)) [
  | none ↦ thrown
  | some user_id ↦ ok (kick_user get_device user_id device users)
]

-- The listener on a message "user_id:device"; a number that cannot be read raises.
unfoldable pub on_kick : (ℕ → Text) → Text → Users → Outcome (List SessionCall)
unfolding kick_at
on_kick get_device msg users = elim (find b':' msg) [
  | none ↦ ok []
  | some i ↦ kick_at get_device (take i msg) (drop (suc i) msg) users
]

pub on_kick-find :
    (get_device : ℕ → Text) (msg : Text) (users : Users) (i : ℕ) (user_id : ℤ)
    → find b':' msg ≡ some i
    → stoll (c_str (take i msg)) ≡ some user_id
    → on_kick get_device msg users ≡ ok (kick_user get_device user_id (drop (suc i) msg) users)
unfolding on_kick
on_kick-find get_device msg users i user_id f n = rw (f, on_kick) (rw (n, kick_at) refl)

-- ===== src/Gateway/Service/Kick.antt =====
-- From the auth server and the chat server to the sessions: kicks and notifications.
use my_tiny_im.Packet.Commands.{cmd_msg_push_notify}
use my_tiny_im.Base.{
  ℕ, suc, ◌^◌, ◌<◌, ◌≡◌, refl, ap, ◌∙◌, ◌&&◌, ◌||◌, List, [], ◌∷◌, ◌++◌, length, drop,
  take-length-append, arith, if◌then◌else◌,
}
use my_tiny_im.Base.Text.{c_str-append, Text, c_str, find-append, is_empty, text_eq}
use my_tiny_im.Base.Int.{ℤ, to_string, IsInt64, stoll-to_string, c_str-to_string, to_string-All-ne}
use my_tiny_im.Services.{ok}
use my_tiny_im.Packet.{packet_bytes, packet, frame}
use my_tiny_im.Packet.Codec.{frame-packet_bytes}
use my_tiny_im.Auth.Account.{kick_message}
use my_tiny_im.Gateway.Connections.{Users, SessionCall, kick_user}
use my_tiny_im.Gateway.Connections.Table.{is_joined, IsTable}
use my_tiny_im.Gateway.Connections.Delivery.{
  kicked, kicked-kick_user, received, received-send_to_user,
}
use my_tiny_im.Gateway.Service.{on_kick, on_kick-find, push_notify_user}

c_str-colon : (t : Text) → c_str t ≡ t → c_str (b':' ∷ t) ≡ b':' ∷ t
unfolding c_str
c_str-colon t e = ap (◌∷◌ b':') e

drop-suc : (s t : Text) (c : ℕ) → drop (suc (length s)) (s ++ c ∷ t) ≡ t
drop-suc [] t c = refl
drop-suc (d ∷ s) t c = drop-suc s t c

-- What is published for a user and a device without NUL, as the subscriber gets it, makes the
-- listener call KickUser for exactly that user and that device, also if the device holds a colon.
pub on_kick-kick_message :
    (get_device : ℕ → Text) (user_id : ℤ) (device : Text) (users : Users)
    → IsInt64 user_id
    → c_str device ≡ device
    → on_kick get_device (c_str (kick_message user_id device)) users
      ≡ ok (kick_user get_device user_id device users)
unfolding kick_message
on_kick-kick_message get_device user_id device users i d =
    rw
      (
        c_str-append (to_string user_id) (b':' ∷ device) (c_str-to_string user_id),
        c_str-colon device d,
      )
      (on_kick-find get_device (to_string user_id ++ b':' ∷ device) users
          (length (to_string user_id)) user_id
          (find-append b':' (to_string user_id) device
            (to_string-All-ne user_id b':' (omega arith)))
          (rw (
            take-length-append (to_string user_id) (b':' ∷ device),
            c_str-to_string user_id,
            stoll-to_string user_id i,
          ))
        ∙ rw (drop-suc (to_string user_id) device b':'))

-- A kick that is published for a 64-bit user and a device without NUL reaches, at a gateway with a
-- well-formed table, exactly the sessions of that user that have that device, each once; with an
-- empty device, all of the user's sessions.
pub on_kick-kicked :
    (get_device : ℕ → Text) (user_id : ℤ) (device : Text) (users : Users) (s : ℕ)
    → IsInt64 user_id
    → c_str device ≡ device
    → IsTable users
    → (calls : List SessionCall) × (on_kick get_device (c_str (kick_message user_id device)) users
        ≡ ok calls)
      × (kicked s calls ≡ (
          if is_joined users user_id s && (is_empty device || text_eq (get_device s) device)
          then 1
          else 0))
on_kick-kicked get_device user_id device users s i d t = (
  kick_user get_device user_id device users,
  on_kick-kick_message get_device user_id device users i d,
  kicked-kick_user get_device user_id device users s t,
)

-- On a well-formed table a notification reaches each session of the user once, and no other
-- session, as a packet that a client reads back as CMD_MSG_PUSH_NOTIFY with the serialized
-- notification, if that is shorter than 2 ^ 32 bytes.
pub push_notify_user-received :
    (serialize : ℤ → ℤ → Text) (user_id max_seq msg_type : ℤ) (users : Users) (s : ℕ)
    → IsTable users
    → length (serialize max_seq msg_type) < 2 ^ 32
    → (data_ : Text) × (received s (push_notify_user serialize user_id max_seq msg_type users)
        ≡ (if is_joined users user_id s then data_ ∷ [] else []))
      × (frame (data_ ++ []) ≡ packet cmd_msg_push_notify (serialize max_seq msg_type) [])
unfolding push_notify_user
push_notify_user-received serialize user_id max_seq msg_type users s t l = (
  packet_bytes cmd_msg_push_notify (serialize max_seq msg_type),
  received-send_to_user user_id (packet_bytes cmd_msg_push_notify (serialize max_seq msg_type))
      users s t,
  frame-packet_bytes cmd_msg_push_notify (serialize max_seq msg_type) [] (omega arith) l,
)

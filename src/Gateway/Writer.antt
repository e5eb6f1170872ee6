-- ===== src/Gateway/Writer.antt =====
-- The write side of a session: `Send`, `Kick`, `DoWrite`, `OnWrite` and `Close` of
-- src/gateway/websocket_session.cpp. All of them run on the session's strand, one at a time.
pub mod Order
pub mod Drain
use my_tiny_im.Packet.Commands.{cmd_logout_resp}
use my_tiny_im.Base.{
  ℕ, ◌≡◌, Bool, true, false, not, ◌&&◌, List, [], ◌∷◌, ◌++◌, is_nil, if◌then◌else◌,
}
use my_tiny_im.Base.Text.{Text, bytes}
use my_tiny_im.Packet.{packet_bytes}

-- What the session asks of its socket.
pub data Output : Type 0 where
  write : Text → Output
  close : Output

-- The members of WebsocketSession that the write side uses; `out` records the calls of
-- async_write and async_close, oldest first.
pub record Writer : Type 0 where
  pub write_queue : List Text
  pub is_writing : Bool
  pub close_after_write : Bool
  pub out : List Output

abbrev pub init : Writer
init = record { write_queue = []; is_writing = false; close_after_write = false; out = [] }

abbrev pub pop {ℓ} : {A : Type ℓ} → List A → List A
pop [] = []
pop (x ∷ xs) = xs

unfoldable pub close_socket : Writer → Writer
close_socket w = record w { out = w.out ++ close ∷ [] }

start_write : List Text → Writer → Writer
start_write [] w = w
start_write (msg ∷ rest) w = record w { is_writing = true; out = w.out ++ write msg ∷ [] }

unfoldable pub do_write : Writer → Writer
unfolding start_write
do_write w = if w.is_writing then w else start_write w.write_queue w

-- `failed` is the error code.
unfoldable pub on_write : Bool → Writer → Writer
unfolding do_write close_socket
on_write failed w =
    let w' = record w { write_queue = pop w.write_queue; is_writing = false } in
    if not (is_nil w'.write_queue) && not failed
    then do_write w'
    else if is_nil w'.write_queue && w'.close_after_write
    then close_socket w'
    else w'

unfoldable pub send : Text → Writer → Writer
unfolding do_write
send msg w = do_write (record w { write_queue = w.write_queue ++ msg ∷ [] })

unfoldable pub kick_packet : Text
kick_packet = packet_bytes cmd_logout_resp (bytes "Kicked by new login")

unfoldable pub kick : Writer → Writer
unfolding do_write
kick w =
    do_write
      (record w { write_queue = w.write_queue ++ kick_packet ∷ []; close_after_write = true })

-- A history of the strand, with the messages that were queued: the socket completes a write only
-- while one is under way, with or without an error.
pub data Runs : List Text → Writer → Type 0 where
  start : Runs [] init
  sends : {p : List Text} {w : Writer} (msg : Text) → Runs p w → Runs (p ++ msg ∷ []) (send msg w)
  kicks : {p : List Text} {w : Writer} → Runs p w → Runs (p ++ kick_packet ∷ []) (kick w)
  completes :
      {p : List Text} {w : Writer} (failed : Bool)
      → w.is_writing ≡ true
      → Runs p w
      → Runs p (on_write failed w)

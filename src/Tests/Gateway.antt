-- ===== src/Tests/Gateway.antt =====
-- Runs of a session's write side and of the table of connections.
use my_tiny_im.Base.{ℕ, ◌≡◌, refl, false, List, [], ◌∷◌, ◌++◌, length}
use my_tiny_im.Base.Text.{Text, bytes}
use my_tiny_im.Base.Int.{pos}
use my_tiny_im.Gateway.Writer.{
  Output, close, Writer, init, on_write, send, kick_packet, kick, Runs, start, sends, kicks,
  completes,
}
use my_tiny_im.Gateway.Writer.Order.{writes, InOrder, Runs-InOrder}
use my_tiny_im.Gateway.Writer.Drain.{drain, kick-drain}
use my_tiny_im.Gateway.Connections.Table.{
  is_joined, TableCall, joins, leaves, run, last_join, is_joined-run,
}

-- A session with one message being written.
abbrev one_sent : Writer
one_sent = send (bytes "hello") init

one_sent_run : Runs (bytes "hello" ∷ []) one_sent
one_sent_run = sends (bytes "hello") start

-- The same once the session was kicked and the message written.
abbrev kick_in_flight : Writer
kick_in_flight = on_write false (kick one_sent)

kick_in_flight_run : Runs (bytes "hello" ∷ kick_packet ∷ []) kick_in_flight
unfolding send kick
kick_in_flight_run = completes false refl (kicks one_sent_run)

Runs-InOrder_example :
    (completed : List Text) × InOrder (bytes "hello" ∷ kick_packet ∷ []) completed kick_in_flight
Runs-InOrder_example = Runs-InOrder kick_in_flight_run

kick-drain_example :
    let end = drain (length (kick one_sent).write_queue) (kick one_sent) in
    (before : List Output) × (end.out ≡ before ++ close ∷ [])
    × (end.write_queue ≡ [])
    × (writes before ≡ bytes "hello" ∷ kick_packet ∷ [])
kick-drain_example = kick-drain one_sent_run

-- User 7 is connected by the sessions 1 and 2.
abbrev two_sessions : List TableCall
two_sessions = joins (pos 7) 2 ∷ joins (pos 7) 1 ∷ joins (pos 8) 3 ∷ leaves (pos 8) 3 ∷ []

is_joined-run_example :
    is_joined (run [] two_sessions) (pos 8) 3
    ≡ last_join (is_joined [] (pos 8) 3) (pos 8) 3 two_sessions
is_joined-run_example = is_joined-run [] two_sessions (pos 8) 3 tt

abbrev device_of : ℕ → Text
device_of s = bytes "PC"

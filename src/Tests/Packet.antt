-- ===== src/Tests/Packet.antt =====
-- Runs of the framing code of src/common/packet.h and src/gateway/websocket_session.cpp.
use mathlib.Core.List.{foldl, flatten}
use my_tiny_im.Packet.Commands.{cmd_heartbeat_req, cmd_msg_send_req}
use my_tiny_im.Base.{ℕ, ◌≡◌, List, [], ◌∷◌, ◌++◌, arith}
use my_tiny_im.Base.Text.{Text, bytes}
use my_tiny_im.Packet.{packet_bytes, read_loop, on_data, receive_all, fresh}
use my_tiny_im.Packet.Stream.{stream, read_loop_fuel, on_data-packets, receive_all-cut}

-- A handler that keeps what it was given, newest first.
abbrev record_packet : List (ℕ × Text) → ℕ → Text → List (ℕ × Text)
record_packet s cmd body = (cmd, body) ∷ s

abbrev two_packets : List (ℕ × Text)
two_packets = (cmd_heartbeat_req, []) ∷ (cmd_msg_send_req, bytes "{}") ∷ []

-- A heartbeat packet, cut inside its header.
abbrev two_messages : List Text
two_messages = (b'I' ∷ b'M' ∷ 1 ∷ 16 ∷ []) ∷ (3 ∷ 0 ∷ 0 ∷ 0 ∷ 0 ∷ b'I' ∷ []) ∷ []

read_loop_fuel_example :
    read_loop record_packet 13 [] (packet_bytes 0x2001 (bytes "{}"))
    ≡ read_loop record_packet 20 [] (packet_bytes 0x2001 (bytes "{}"))
unfolding packet_bytes bytes
read_loop_fuel_example =
    read_loop_fuel record_packet 13 20 [] (packet_bytes 0x2001 (bytes "{}")) (omega arith)
      (omega arith)

on_data-packets_example :
    on_data record_packet [] (stream two_packets ++ bytes "IM")
    ≡ on_data record_packet (foldl (λ t p. record_packet t p.0 p.1) [] two_packets) (bytes "IM")
unfolding bytes
on_data-packets_example =
    on_data-packets record_packet [] two_packets (bytes "IM")
      ((omega arith, omega arith), ((omega arith, omega arith), tt))

receive_all-cut_example :
    ((receive_all record_packet (fresh []) two_messages).state
      ≡ (on_data record_packet [] (flatten two_messages)).state)
    × ((receive_all record_packet (fresh []) two_messages).open_
        ≡ (on_data record_packet [] (flatten two_messages)).open_)
receive_all-cut_example = receive_all-cut record_packet [] two_messages

-- ===== src/Packet/Stream.antt =====
-- The read loop of src/gateway/websocket_session.cpp over a stream of bytes that comes in messages.
use mathlib.Core.Path.{subst, subst₂}
use mathlib.Core.List.{foldl, append_assoc, append-nil, flatten}
use my_tiny_im.Base.{
  ℕ, zero, suc, ◌^◌, ◌≤◌, ◌<◌, ◌≡◌, refl, sym, ap, ◌∙◌, true, false, List, [], ◌∷◌, ◌++◌, length,
  All, inl, inr, ◌⊎◌, arith, Bool-cases,
}
use my_tiny_im.Base.Text.{Text}
use my_tiny_im.Packet.{
  packet_bytes, Frame, partial, invalid, packet, frame, ReadResult, read_loop, on_data, receive,
  receive_all, fresh,
}
use my_tiny_im.Packet.Codec.{
  frame-packet_bytes, frame-length, frame-append_packet, frame-append_invalid,
}

abbrev FrameView : Text → Type 0
FrameView buffer =
    (frame buffer ≡ partial)
    ⊎ ((frame buffer ≡ invalid)
        ⊎ ((cmd : ℕ) × (body : Text) × (rest : Text) × (frame buffer ≡ packet cmd body rest)))

view_of :
    (x : Frame)
    → (x ≡ partial)
      ⊎ ((x ≡ invalid) ⊎ ((cmd : ℕ) × (body : Text) × (rest : Text) × (x ≡ packet cmd body rest)))
view_of partial = inl refl
view_of invalid = inr (inl refl)
view_of (packet cmd body rest) = inr (inr (cmd, body, rest, refl))

-- The bytes of some packets, one after the other.
abbrev pub stream : List (ℕ × Text) → Text
stream [] = []
stream ((cmd, body) ∷ ps) = packet_bytes cmd body ++ stream ps

frame-nil : frame [] ≡ partial
unfolding frame
frame-nil = refl

module _ {ℓ} {S : Type ℓ} (handle : S → ℕ → Text → S) where
  loop_partial :
      (f : ℕ) (s : S) (buffer : Text)
      → frame buffer ≡ partial
      → read_loop handle f s buffer ≡ record { state = s; buffer = buffer; open_ = true }
  unfolding read_loop
  loop_partial zero s buffer e = refl
  loop_partial (suc f) s buffer e = rw (e, read_loop)

  loop_invalid :
      (f : ℕ) (s : S) (buffer : Text)
      → frame buffer ≡ invalid
      → read_loop handle (suc f) s buffer ≡ record { state = s; buffer = buffer; open_ = false }
  unfolding read_loop
  loop_invalid f s buffer e = rw (e, read_loop)

  loop_packet :
      (f : ℕ) (s : S) (buffer : Text) (cmd : ℕ) (body rest : Text)
      → frame buffer ≡ packet cmd body rest
      → read_loop handle (suc f) s buffer ≡ read_loop handle f (handle s cmd body) rest
  unfolding read_loop
  loop_packet f s buffer cmd body rest e = rw (e, read_loop)

  invalid_length : (buffer : Text) → frame buffer ≡ invalid → 0 < length buffer
  unfolding frame
  invalid_length [] e = cc
  invalid_length (c ∷ buffer) e = omega arith

  -- Any fuel that covers the buffer gives the same result: the loop ends by its own tests.
  pub read_loop_fuel :
      (f g : ℕ) (s : S) (buffer : Text)
      → length buffer ≤ f
      → length buffer ≤ g
      → read_loop handle f s buffer ≡ read_loop handle g s buffer
  read_loop_fuel zero zero s buffer h k = refl
  read_loop_fuel zero (suc g) s buffer h k = elim (view_of (frame buffer)) [
    | inl e ↦ loop_partial zero s buffer e ∙ sym (loop_partial (suc g) s buffer e)
    | inr (inl e) ↦ absurd (omega (arith, invalid_length buffer e))
    | inr (inr (cmd, body, rest, e)) ↦ absurd (omega (arith, frame-length buffer e))
  ]
  read_loop_fuel (suc f) zero s buffer h k = elim (view_of (frame buffer)) [
    | inl e ↦ loop_partial (suc f) s buffer e ∙ sym (loop_partial zero s buffer e)
    | inr (inl e) ↦ absurd (omega (arith, invalid_length buffer e))
    | inr (inr (cmd, body, rest, e)) ↦ absurd (omega (arith, frame-length buffer e))
  ]
  read_loop_fuel (suc f) (suc g) s buffer h k = elim (view_of (frame buffer)) [
    | inl e ↦ loop_partial (suc f) s buffer e ∙ sym (loop_partial (suc g) s buffer e)
    | inr (inl e) ↦ loop_invalid f s buffer e ∙ sym (loop_invalid g s buffer e)
    | inr (inr (cmd, body, rest, e)) ↦
        loop_packet f s buffer cmd body rest e
        ∙ read_loop_fuel f g (handle s cmd body) rest (omega (arith, frame-length buffer e))
            (omega (arith, frame-length buffer e))
        ∙ sym (loop_packet g s buffer cmd body rest e)
  ]

  -- `on_data` by its three cases, with no fuel in sight.
  pub on_data_partial :
      (s : S) (buffer : Text)
      → frame buffer ≡ partial
      → on_data handle s buffer ≡ record { state = s; buffer = buffer; open_ = true }
  unfolding on_data
  on_data_partial s buffer e = loop_partial (length buffer) s buffer e

  pub on_data_invalid :
      (s : S) (buffer : Text)
      → frame buffer ≡ invalid
      → on_data handle s buffer ≡ record { state = s; buffer = buffer; open_ = false }
  unfolding on_data
  on_data_invalid s buffer e =
      read_loop_fuel (length buffer) (suc (length buffer)) s buffer (omega arith) (omega arith)
      ∙ loop_invalid (length buffer) s buffer e

  pub on_data_packet :
      (s : S) (buffer : Text) (cmd : ℕ) (body rest : Text)
      → frame buffer ≡ packet cmd body rest
      → on_data handle s buffer ≡ on_data handle (handle s cmd body) rest
  unfolding on_data
  on_data_packet s buffer cmd body rest e =
      read_loop_fuel (length buffer) (suc (length buffer)) s buffer (omega arith) (omega arith)
      ∙ loop_packet (length buffer) s buffer cmd body rest e
      ∙ read_loop_fuel (length buffer) (length rest) (handle s cmd body) rest
          (omega (arith, frame-length buffer e)) (omega arith)

  -- Induction on a buffer along its packets.
  module _ {κ} (P : S → Text → Type κ)
      (at_partial : (s : S) (buffer : Text) → frame buffer ≡ partial → P s buffer)
      (at_invalid : (s : S) (buffer : Text) → frame buffer ≡ invalid → P s buffer)
      (at_packet : (s : S) (buffer : Text) (cmd : ℕ) (body rest : Text)
        → frame buffer ≡ packet cmd body rest
        → P (handle s cmd body) rest
        → P s buffer) where
    stream_below : (n : ℕ) (s : S) (buffer : Text) → length buffer ≤ n → P s buffer
    stream_below zero s buffer h = elim (view_of (frame buffer)) [
      | inl e ↦ at_partial s buffer e
      | inr (inl e) ↦ at_invalid s buffer e
      | inr (inr (cmd, body, rest, e)) ↦ absurd (omega (arith, frame-length buffer e))
    ]
    stream_below (suc n) s buffer h = elim (view_of (frame buffer)) [
      | inl e ↦ at_partial s buffer e
      | inr (inl e) ↦ at_invalid s buffer e
      | inr (inr (cmd, body, rest, e)) ↦
          at_packet s buffer cmd body rest e
            (stream_below n (handle s cmd body) rest (omega (arith, frame-length buffer e)))
    ]

    pub stream_induction : (s : S) (buffer : Text) → P s buffer
    stream_induction s buffer = stream_below (length buffer) s buffer (omega arith)

  on_data-append_open :
      (more : Text) (s : S) (buffer : Text)
      → (on_data handle s buffer).open_ ≡ true
      → on_data handle (on_data handle s buffer).state ((on_data handle s buffer).buffer ++ more)
        ≡ on_data handle s (buffer ++ more)
  on_data-append_open more =
      stream_induction _ (λ s buffer e o. rw (on_data_partial s buffer e))
        (λ s buffer e o. cc (on_data_invalid s buffer e))
        (λ s buffer cmd body rest e ih o.
          rw
            (
              on_data_packet s buffer cmd body rest e,
              on_data_packet s (buffer ++ more) cmd body (rest ++ more)
                  (frame-append_packet buffer more e),
            )
            (ih (rw (← on_data_packet s buffer cmd body rest e) o)))

  on_data-append_closed :
      (more : Text) (s : S) (buffer : Text)
      → (on_data handle s buffer).open_ ≡ false
      → (on_data handle s (buffer ++ more) ≡ record {
        state = (on_data handle s buffer).state;
        buffer = (on_data handle s buffer).buffer ++ more;
        open_ = false;
      })
  on_data-append_closed more =
      stream_induction _ (λ s buffer e o. cc (on_data_partial s buffer e))
        (λ s buffer e o.
          rw (on_data_invalid s buffer e)
            (on_data_invalid s (buffer ++ more) (frame-append_invalid buffer more e)))
        (λ s buffer cmd body rest e ih o.
          rw
            (
              on_data_packet s buffer cmd body rest e,
              on_data_packet s (buffer ++ more) cmd body (rest ++ more)
                  (frame-append_packet buffer more e),
            )
            (ih (rw (← on_data_packet s buffer cmd body rest e) o)))

  -- Packets with 16-bit commands and bodies shorter than 2 ^ 32 bytes that are sent one after the
  -- other are handled in that order, each once, and what follows them is read as if it stood alone.
  pub on_data-packets :
      (s : S) (ps : List (ℕ × Text)) (rest : Text)
      → All (λ p. (p.0 < 65536) × (length p.1 < 2 ^ 32)) ps
      → on_data handle s (stream ps ++ rest)
        ≡ on_data handle (foldl (λ t p. handle t p.0 p.1) s ps) rest
  on_data-packets s [] rest h = refl
  on_data-packets s ((cmd, body) ∷ ps) rest h = rw append_assoc (
      on_data_packet s (packet_bytes cmd body ++ (stream ps ++ rest)) cmd body (stream ps ++ rest)
        (frame-packet_bytes cmd body (stream ps ++ rest) h.0.0 h.0.1)
      ∙ on_data-packets (handle s cmd body) ps rest h.1)

  abbrev Agrees : ReadResult S → ReadResult S → Type ℓ
  Agrees r q = (r.state ≡ q.state) × (r.open_ ≡ q.open_)

  receive-closed : (r : ReadResult S) (m : Text) → r.open_ ≡ false → receive handle r m ≡ r
  unfolding receive
  receive-closed r m e = simp e

  receive_all-closed :
      (r : ReadResult S) (ms : List Text) → r.open_ ≡ false → receive_all handle r ms ≡ r
  receive_all-closed r [] e = refl
  receive_all-closed r (m ∷ ms) e =
      ap (λ q. receive_all handle q ms) (receive-closed r m e) ∙ receive_all-closed r ms e

  receive-on_data :
      (s : S) (buffer m : Text)
      → (on_data handle s buffer).open_ ≡ true
      → receive handle (on_data handle s buffer) m ≡ on_data handle s (buffer ++ m)
  unfolding receive
  receive-on_data s buffer m e = rw e (on_data-append_open m s buffer e)

  receive_all-on_data :
      (s : S) (buffer : Text) (ms : List Text)
      → Agrees
          (receive_all handle (on_data handle s buffer) ms)
          (on_data handle s (buffer ++ flatten ms))
  unfolding flatten
  receive_all-on_data s buffer [] = rw (append-nil buffer) (refl, refl)
  receive_all-on_data s buffer (m ∷ ms) = elim (Bool-cases (on_data handle s buffer).open_) [
    | inl e ↦
        subst₂ (λ r b. Agrees (receive_all handle r ms) (on_data handle s b))
          (sym (receive-on_data s buffer m e)) (append_assoc buffer m (flatten ms))
          (receive_all-on_data s (buffer ++ m) ms)
    | inr e ↦
        subst₂ Agrees (sym (receive_all-closed (on_data handle s buffer) (m ∷ ms) e))
          (sym (on_data-append_closed (m ++ flatten ms) s buffer e)) (refl, e)
  ]

  -- However the bytes are cut into messages, the session ends in the state, and open or closed,
  -- as if they had come in one.
  pub receive_all-cut :
      (s : S) (ms : List Text)
      → ((receive_all handle (fresh s) ms).state ≡ (on_data handle s (flatten ms)).state)
        × ((receive_all handle (fresh s) ms).open_ ≡ (on_data handle s (flatten ms)).open_)
  receive_all-cut s ms =
      subst (λ r. Agrees (receive_all handle r ms) (on_data handle s (flatten ms)))
        (on_data_partial s [] frame-nil) (receive_all-on_data s [] ms)

-- ===== src/Packet/Codec.antt =====
-- Building and reading a packet of src/common/packet.h.
use my_tiny_im.Base.{
  ℕ, ◌+◌, ◌^◌, ◌≤◌, ◌<◌, ◌≡◌, sym, ◌∙◌, ◌⊎◌, inl, inr, none, some, ◌∷◌, ◌++◌, length, length-append,
  length-drop, take-length-append, drop-length-append, take-append_le, drop-append_le, Option-cases,
  arith,
}
use my_tiny_im.Base.Text.{Text}
use my_tiny_im.Packet.{
  PacketHeader, decode_header, packet_bytes, invalid, packet, body_frame, frame, header_size,
}

decode_header-packet_bytes :
    (cmd : ℕ) (body rest : Text)
    → cmd < 65536
    → length body < 2 ^ 32
    → decode_header (packet_bytes cmd body ++ rest)
      ≡ some (
        record { magic0 = b'I'; magic1 = b'M'; version = 1; cmd_id = cmd; body_len = length body },
        body ++ rest,
      )
unfolding decode_header packet_bytes
decode_header-packet_bytes cmd body rest h k = ground arith

decode_header-append :
    (buffer more : Text) (h : PacketHeader) (rest : Text)
    → decode_header buffer ≡ some (h, rest)
    → decode_header (buffer ++ more) ≡ some (h, rest ++ more)
unfolding decode_header
decode_header-append (m0 ∷ m1 ∷ v ∷ c0 ∷ c1 ∷ l0 ∷ l1 ∷ l2 ∷ l3 ∷ buffer) more h rest e =
    ground arith
decode_header-append _ more h rest e = cc

decode_header-length :
    (buffer : Text) (h : PacketHeader) (rest : Text)
    → decode_header buffer ≡ some (h, rest)
    → length buffer ≡ length rest + header_size
unfolding decode_header
decode_header-length (m0 ∷ m1 ∷ v ∷ c0 ∷ c1 ∷ l0 ∷ l1 ∷ l2 ∷ l3 ∷ buffer) h rest e = ground arith
decode_header-length _ h rest e = cc

frame_of :
    (buffer : Text) (h : PacketHeader) (rest : Text)
    → decode_header buffer ≡ some (h, rest)
    → frame buffer ≡ body_frame h rest
unfolding frame
frame_of buffer h rest e = rw (e, frame)

body_frame-append :
    (h : PacketHeader) (rest more : Text) {cmd : ℕ} {body left : Text}
    → body_frame h rest ≡ packet cmd body left
    → body_frame h (rest ++ more) ≡ packet cmd body (left ++ more)
unfolding body_frame
body_frame-append h rest more e = ground (
  arith,
  length-append rest more,
  take-append_le h.body_len rest more,
  drop-append_le h.body_len rest more,
)

body_frame-append_invalid :
    (h : PacketHeader) (rest more : Text)
    → body_frame h rest ≡ invalid
    → body_frame h (rest ++ more) ≡ invalid
unfolding body_frame
body_frame-append_invalid h rest more e = ground arith

body_frame-length :
    (h : PacketHeader) (rest : Text) {cmd : ℕ} {body left : Text}
    → body_frame h rest ≡ packet cmd body left
    → length left ≤ length rest
unfolding body_frame
body_frame-length h rest e = ground (arith, length-drop h.body_len rest)

-- A packet with a 16-bit command and a body shorter than 2 ^ 32 bytes, followed by any bytes, is
-- read as that command and that body, and the bytes that follow are what is left.
pub frame-packet_bytes :
    (cmd : ℕ) (body rest : Text)
    → cmd < 65536
    → length body < 2 ^ 32
    → frame (packet_bytes cmd body ++ rest) ≡ packet cmd body rest
frame-packet_bytes cmd body rest h k =
    frame_of _ _ _ (decode_header-packet_bytes cmd body rest h k)
    ∙ unfold body_frame in
      ground
        (arith, length-append body rest, take-length-append body rest, drop-length-append body rest)

-- To split on a computed frame.
module _ (buffer : Text) where
  pub decode-cases :
      (decode_header buffer ≡ none) ⊎ ((x : PacketHeader × Text) × (decode_header buffer ≡ some x))
  decode-cases = Option-cases (decode_header buffer)

  -- A packet takes at least a header from the buffer.
  pub frame-length :
      {cmd : ℕ} {body rest : Text}
      → frame buffer ≡ packet cmd body rest
      → length rest + header_size ≤ length buffer
  unfolding frame
  frame-length e = elim (Option-cases (decode_header buffer)) [
    | inl p ↦ cc p
    | inr ((h, r), p) ↦ omega (
      arith,
      decode_header-length buffer h r p,
      body_frame-length h r (sym (frame_of buffer h r p) ∙ e),
    )
  ]

  pub frame-append_packet :
      (more : Text) {cmd : ℕ} {body rest : Text}
      → frame buffer ≡ packet cmd body rest
      → frame (buffer ++ more) ≡ packet cmd body (rest ++ more)
  frame-append_packet more e = elim (Option-cases (decode_header buffer)) [
    | inl p ↦ unfold frame in cc p
    | inr ((h, r), p) ↦
        frame_of _ _ _ (decode_header-append buffer more h r p)
        ∙ body_frame-append h r more (sym (frame_of buffer h r p) ∙ e)
  ]

  pub frame-append_invalid :
      (more : Text) → frame buffer ≡ invalid → frame (buffer ++ more) ≡ invalid
  frame-append_invalid more e = elim (Option-cases (decode_header buffer)) [
    | inl p ↦ unfold frame in cc p
    | inr ((h, r), p) ↦
        frame_of _ _ _ (decode_header-append buffer more h r p)
        ∙ body_frame-append_invalid h r more (sym (frame_of buffer h r p) ∙ e)
  ]

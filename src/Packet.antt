-- ===== src/Packet.antt =====
-- src/common/packet.h, and the framing code that three files share: the packet that
-- `WebsocketSession::SendPacket`, `WebsocketSession::Kick` and `GatewayServiceImpl::PushNotify`
-- build, and the read loop of `WebsocketSession::OnRead`.
pub mod Commands
pub mod Codec
pub mod Stream
use my_tiny_im.Base.{
  ℕ, zero, suc, ◌+◌, ◌*◌, ◌/◌, ◌%◌, ◌^◌, Bool, true, false, not, ◌&&◌, Option, none, some, List, [],
  ◌∷◌, ◌++◌, length, take, drop, ltb, ◌==◌, if◌then◌else◌,
}
use my_tiny_im.Base.Text.{Text}

-- struct PacketHeader, with the values that its fields stand for on the host.
pub record PacketHeader : Type 0 where
  pub magic0 : ℕ
  pub magic1 : ℕ
  pub version : ℕ
  pub cmd_id : ℕ
  pub body_len : ℕ

-- sizeof(PacketHeader): the struct is packed.
abbrev pub header_size : ℕ
header_size = 9

-- The bytes of htons(x) and htonl(x) in memory.
abbrev pub u16_bytes : ℕ → Text
u16_bytes x = (x / 256) ∷ (x % 256) ∷ []

abbrev pub u32_bytes : ℕ → Text
u32_bytes x = (x / 16777216) ∷ (x / 65536 % 256) ∷ (x / 256 % 256) ∷ (x % 256) ∷ []

-- memcpy of the struct to the wire.
pub header_bytes : PacketHeader → Text
header_bytes h = h.magic0 ∷ h.magic1 ∷ h.version ∷ (u16_bytes h.cmd_id ++ u32_bytes h.body_len)

-- memcpy from the wire; `none` if the buffer is shorter than a header. The body follows.
pub decode_header : Text → Option (PacketHeader × Text)
decode_header (m0 ∷ m1 ∷ v ∷ c0 ∷ c1 ∷ l0 ∷ l1 ∷ l2 ∷ l3 ∷ rest) = some (
  record {
    magic0 = m0;
    magic1 = m1;
    version = v;
    cmd_id = c0 * 256 + c1;
    body_len = l0 * 16777216 + l1 * 65536 + l2 * 256 + l3;
  },
  rest,
)
decode_header _ = none

-- The packet of a command; htonl takes the body's size as a uint32_t.
unfoldable pub packet_bytes : ℕ → Text → Text
unfolding header_bytes
packet_bytes cmd body =
    header_bytes (record {
      magic0 = b'I';
      magic1 = b'M';
      version = 1;
      cmd_id = cmd;
      body_len = length body % 2 ^ 32;
    })
    ++ body

-- What the loop finds at the front of its buffer.
pub data Frame : Type 0 where
  partial : Frame
  invalid : Frame
  packet : ℕ → Text → Text → Frame

body_frame : PacketHeader → Text → Frame
body_frame h rest =
    if not (h.magic0 == b'I' && h.magic1 == b'M')
    then invalid
    else if ltb (length rest) h.body_len
    then partial
    else packet h.cmd_id (take h.body_len rest) (drop h.body_len rest)

pub frame : Text → Frame
unfolding decode_header body_frame
frame buffer = elim (decode_header buffer) [ none ↦ partial | some (h, rest) ↦ body_frame h rest ]

-- The state after one call of OnRead: `open` is false if the magic was wrong, so that Close() was
-- called and no further read started.
pub record ReadResult {ℓ} (S : Type ℓ) : Type ℓ where
  pub state : S
  pub buffer : Text
  pub open_ : Bool

module _ {ℓ} {S : Type ℓ} (handle : S → ℕ → Text → S) where
  -- The loop on fuel; each round consumes a header, so a buffer's length is enough.
  pub read_loop : ℕ → S → Text → ReadResult S
  read_loop zero s buffer = record { state = s; buffer = buffer; open_ = true }
  read_loop (suc f) s buffer = elim (frame buffer) [
    | partial ↦ record { state = s; buffer = buffer; open_ = true }
    | invalid ↦ record { state = s; buffer = buffer; open_ = false }
    | packet cmd body rest ↦ read_loop f (handle s cmd body) rest
  ]

  pub on_data : S → Text → ReadResult S
  on_data s buffer = read_loop (length buffer) s buffer

  -- OnRead on the next WebSocket message: it lands behind what is buffered. After Close() no read
  -- is started, so nothing more arrives.
  unfoldable pub receive : ReadResult S → Text → ReadResult S
  receive r message = if r.open_ then on_data r.state (r.buffer ++ message) else r

  abbrev pub receive_all : ReadResult S → List Text → ReadResult S
  receive_all r [] = r
  receive_all r (m ∷ ms) = receive_all (receive r m) ms

-- A session that has read nothing yet.
abbrev pub fresh {ℓ} : {S : Type ℓ} → S → ReadResult S
fresh s = record { state = s; buffer = []; open_ = true }

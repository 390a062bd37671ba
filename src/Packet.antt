-- ===== src/Packet.antt =====
-- The packet format: PACK_HEAD (include/engine.h), the packing of a command by
-- zSocket::packetAppend and the unpacking by zSocket::packetUnpack (include/zSocket.cpp).
use ugly_ff.Base.{
  ℕ, ◌+◌, ◌-◌, ◌*◌, ◌/◌, ◌%◌, List, [], ◌∷◌, ◌++◌, Option, none, some, leb, if◌then◌else◌, length,
  add64,
}
use ugly_ff.Memory.{window}
use ugly_ff.Buffer.{ByteBuffer, put_stack}
pub mod Frames
pub mod Results

abbrev pub header₀ : ℕ
header₀ = 0xAA

abbrev pub header₁ : ℕ
header₁ = 0xDD

-- PACK_HEAD is packed (`#pragma pack(1)`): two marks and a 16-bit length, little-endian.
abbrev pub pack_head_size : ℕ
pack_head_size = 4

-- MAX_DATASIZE = (PACKET_MASK - PH_LEN - PACKHEADLASTSIZE), where PH_LEN is sizeof(DWORD) = 8
abbrev pub max_datasize : ℕ
max_datasize = 65535 - 8 - 1

-- The bytes of a PACK_HEAD whose `len` was assigned `n`, cut to 16 bits.
unfoldable pub pack_head : ℕ → List ℕ
pack_head n = header₀ ∷ header₁ ∷ (n % 256) ∷ (n / 256 % 256) ∷ []

-- ((PACK_HEAD*)rd_buf())->len
unfoldable pub head_len : ByteBuffer → ℕ
head_len b = b.buffer (b.off_ptr + 2) + 256 * b.buffer (b.off_ptr + 3)

infixl 5 ◌>>=◌
abbrev pub ◌>>=◌ {ℓ κ} : {A : Type ℓ} {B : Type κ} → Option A → (A → Option B) → Option B
none >>= f = none
some a >>= f = f a

-- zSocket::packetAppend into a t_StackCmdQueue: the head, then the command. `none` is a copy that
-- leaves the array of the queue.
unfoldable pub packet_append : List ℕ → ByteBuffer → Option ByteBuffer
packet_append cmd queue = do queue' ← put_stack (pack_head (length cmd)) queue; put_stack cmd queue'

-- zSocket::packetUnpack from the data of `b` into a block of `room` bytes: the `len` bytes behind
-- the head. `none` is a copy that reads behind the buffer or writes behind the block.
unfoldable pub packet_unpack : ByteBuffer → ℕ → ℕ → Option (List ℕ)
packet_unpack b len room =
    if leb (b.off_ptr + pack_head_size + len) b.max_size
    then (if leb len room then some (window b.buffer (b.off_ptr + pack_head_size) len) else none)
    else none

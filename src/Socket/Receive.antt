-- ===== src/Socket/Receive.antt =====
-- include/zSocket.cpp: RecvByte, RecvData and recvToCmd.
use ugly_ff.Base.{
  ℕ, ◌+◌, ◌-◌, zero, suc, Bool, true, false, List, [], ◌∷◌, Option, none, some, if◌then◌else◌, ltb,
  ◌==◌, ◌&&◌, ◌||◌, not, length, take, drop, min, ℤ, pos, negsuc, minus_one, to_int, sub64, add64,
}
use ugly_ff.Buffer.{
  ByteBuffer, new_buffer, reserve_dynamic, put, rd_size, rd_buf, rd_flip, wr_flip, reset,
}
use ugly_ff.Packet.{header₀, header₁, pack_head_size, max_datasize, head_len, packet_unpack, ◌>>=◌}
use ugly_ff.Socket.{Socket, is_invalid, disconnect}
pub mod Step
pub mod Stream
pub mod Call
pub mod Run
pub mod Take
pub mod Errors

-- What recv() returned, the bytes of the peer that are still in the kernel, and the socket
-- afterwards.
pub record Received : Type 0 where
  pub ret : ℤ
  pub wire : List ℕ
  pub socket : Socket

-- zSocket::RecvByte. The kernel holds `wire`, and recv() hands over at most `k` bytes and at most
-- `size`; `none` is a recv() that failed.
unfoldable pub recv_byte : ℕ → Option ℕ → List ℕ → Socket → Received
recv_byte size none wire s = record {
  ret = minus_one;
  wire = wire;
  socket = record s { recv_buffer = reserve_dynamic size s.recv_buffer };
}
recv_byte size (some k) wire s =
    let bytes = take (min k size) wire in
    record {
      ret = pos (length bytes);
      wire = drop (min k size) wire;
      socket = record s { recv_buffer = wr_flip bytes (reserve_dynamic size s.recv_buffer) };
    }

-- behind the label `ret` of RecvData: while the buffer holds exactly the message of length `len`,
-- it is moved to the queue (`goto ret` goes round again). `none` is a fault, or fuel that ran out.
unfoldable pub deliver : ℕ → ℕ → Socket → Option Socket
deliver zero len s = none
deliver (suc fuel) len s =
    if ltb pack_head_size (rd_size s.recv_buffer) && (rd_size s.recv_buffer == len + pack_head_size)
    then (do
      queue ← put (rd_buf s.recv_buffer (len + pack_head_size)) s.rcv_queue
      let flipped = rd_flip (len + pack_head_size) s.recv_buffer
      deliver fuel len (record s { rcv_queue = queue; recv_buffer = flipped }))
    else some s

-- the result of RecvData, where its body has received and knows the message length `len`
abbrev pub finish : ℕ → Received → Option Received
finish len r = do s ← deliver 2 len r.socket; some (record r { socket = s })

-- zSocket::RecvData
unfoldable pub recv_data : Option ℕ → List ℕ → Socket → Option Received
unfolding recv_byte deliver disconnect
recv_data k wire s =
    if rd_size s.recv_buffer == pack_head_size
    then (if not (s.recv_buffer.buffer s.recv_buffer.off_ptr == header₀)
          || not (s.recv_buffer.buffer (s.recv_buffer.off_ptr + 1) == header₁)
        then finish 0 (record { ret = minus_one; wire = wire; socket = disconnect s })
        else finish (head_len s.recv_buffer) (recv_byte (head_len s.recv_buffer) k wire s))
    else if ltb (rd_size s.recv_buffer) pack_head_size
    then finish 0 (recv_byte (sub64 pack_head_size (rd_size s.recv_buffer)) k wire s)
    else if ltb max_datasize (head_len s.recv_buffer)
    then finish (head_len s.recv_buffer)
        (recv_byte pack_head_size k wire (record s { recv_buffer = reset s.recv_buffer }))
    else finish (head_len s.recv_buffer) (
        recv_byte (sub64 (pack_head_size + head_len s.recv_buffer) (rd_size s.recv_buffer)) k wire
          s)

-- what recvToCmd returned, the bytes that it wrote to the caller's block, and the socket afterwards
pub record Command : Type 0 where
  pub ret : ℤ
  pub cmd : List ℕ
  pub socket : Socket

-- zSocket::recvToCmd into a block of `room` bytes. The code does not look at `room`: `none` is a
-- copy that leaves a block.
unfoldable pub recv_to_cmd : ℕ → Socket → Option Command
unfolding is_invalid
recv_to_cmd room s =
    let len = head_len s.rcv_queue in
    if is_invalid s.sock
    then some (record { ret = minus_one; cmd = []; socket = s })
    else if ltb pack_head_size (rd_size s.rcv_queue) && ltb len (rd_size s.rcv_queue)
    then (do
      cmd ← packet_unpack s.rcv_queue len room
      let flipped = rd_flip (add64 len pack_head_size) s.rcv_queue
      some (record { ret = to_int len; cmd = cmd; socket = record s { rcv_queue = flipped } }))
    else some (record { ret = pos 0; cmd = []; socket = s })

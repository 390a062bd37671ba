-- ===== src/Socket/Send.antt =====
-- include/zSocket.cpp: sendCmd, sync and sendRawData_NoPoll. The bytes that the kernel takes over
-- are part of each result.
use ugly_ff.Base.{
  ℕ, Bool, true, false, List, [], ◌∷◌, Option, none, some, if◌then◌else◌, ltb, length, take, min, ℤ,
  pos, negsuc, minus_one, to_int,
}
use ugly_ff.Buffer.{ByteBuffer, new_buffer, put, rd_size, rd_buf, rd_ready, rd_flip}
use ugly_ff.Packet.{packet_append, ◌>>=◌}
use ugly_ff.Socket.{Errno, eagain, ewouldblock, eintr, other, Socket, disconnect}
pub mod Stream
pub mod Session

-- What send() does: it takes as many bytes as the kernel's buffer has room for, or fails.
pub data Sending : Type 0 where
  room : ℕ → Sending
  failed : Errno → Sending

-- a result with the bytes that went to the kernel, and the socket afterwards
pub record Sent : Type 0 where
  pub ok : Bool
  pub wire : List ℕ
  pub socket : Socket

-- tQueue.put(_raw_queue.rd_buf(), _raw_queue.rd_size())
unfoldable pub enqueue : ByteBuffer → Socket → Option Socket
enqueue raw s = do
  queue ← put (rd_buf raw (rd_size raw)) s.send_queue
  some (record s { send_queue = queue })

abbrev pub with_result : Bool → List ℕ → Option Socket → Option Sent
with_result ok wire s = do s' ← s; some (record { ok = ok; wire = wire; socket = s' })

-- the last branch of sendCmd: the packet goes to the kernel, and what it does not take is queued
unfoldable pub send_raw : ByteBuffer → Sending → Socket → Option Sent
unfolding enqueue disconnect
send_raw raw (room k) s =
    let n = min k (rd_size raw) in
    let wire = take n (rd_buf raw (rd_size raw)) in
    if ltb n (rd_size raw)
    then with_result true wire (enqueue (rd_flip n raw) s)
    else some (record { ok = true; wire = wire; socket = s })
send_raw raw (failed other) s = some (record { ok = false; wire = []; socket = disconnect s })
send_raw raw (failed _) s = with_result true [] (enqueue raw s)

-- zSocket::sendCmd; no command is the null pointer, and `none` a write outside a buffer. The length of
-- a command is an `int`, so a command has less than 2^31 bytes.
unfoldable pub send_cmd : Option (List ℕ) → Bool → Sending → Socket → Option Sent
unfolding send_raw
send_cmd none buffer sending s = some (record { ok = false; wire = []; socket = s })
send_cmd (some []) buffer sending s = some (record { ok = false; wire = []; socket = s })
send_cmd (some (x ∷ cmd)) buffer sending s = do
  raw ← packet_append (x ∷ cmd) new_buffer
  if buffer
      then with_result true [] (enqueue raw s)
      else if ltb 0 (rd_size s.send_queue)
      then with_result true [] (enqueue raw s)
      else send_raw raw sending s

-- zSocket::sendRawData_NoPoll: the return code, and the bytes that the kernel took
unfoldable pub send_raw_data_no_poll : List ℕ → Sending → ℤ × List ℕ
send_raw_data_no_poll bytes (room k) =
    (pos (min k (length bytes)), take (min k (length bytes)) bytes)
send_raw_data_no_poll bytes (failed eagain) = (pos 0, [])
send_raw_data_no_poll bytes (failed ewouldblock) = (pos 0, [])
send_raw_data_no_poll bytes (failed _) = (minus_one, [])

unfoldable pub after_send : ℤ × List ℕ → Socket → Sent
after_send (pos n, wire) s = record {
  ok = true;
  wire = wire;
  socket = if ltb 0 n then record s { send_queue = rd_flip n s.send_queue } else s;
}
after_send (negsuc _, wire) s = record { ok = false; wire = wire; socket = s }

-- zSocket::sync. The size goes through an `int`: `none` stands for one that it cannot hold.
unfoldable pub sync : Sending → Socket → Option Sent
unfolding send_raw_data_no_poll after_send
sync sending s =
    if rd_ready s.send_queue
    then elim (to_int (rd_size s.send_queue)) [
      | pos n ↦ some (after_send (send_raw_data_no_poll (rd_buf s.send_queue n) sending) s)
      | negsuc _ ↦ none
    ]
    else some (record { ok = true; wire = []; socket = s })

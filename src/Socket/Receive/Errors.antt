-- ===== src/Socket/Receive/Errors.antt =====
-- What RecvData does with a stream that is not well formed.
use ugly_ff.Base.{
  ℕ, ◌≤◌, ◌<◌, ◌≡◌, refl, ap, ◌∙◌, inl, false, List, [], ◌++◌, Option, some, ltb, ◌==◌, lt→ltb,
  length, arith,
}
use ugly_ff.Buffer.{rd_size, reset}
use ugly_ff.Buffer.Laws.{contents}
use ugly_ff.Packet.{head_len, pack_head_size, max_datasize}
use ugly_ff.Socket.{Socket}
use ugly_ff.Socket.Receive.{Received, recv_byte, deliver, finish, recv_data}
use ugly_ff.Socket.Receive.Step.{IsFront, recv_byte-Got, deliver-stays}
use ugly_ff.Socket.Receive.Call.{size_of_front}

-- the socket with its receive buffer emptied
emptied : Socket → Socket
emptied s = record s { recv_buffer = reset s.recv_buffer }

emptied-IsFront :
    (s : Socket)
    → IsFront s.recv_buffer
    → IsFront (emptied s).recv_buffer × (contents (emptied s).recv_buffer ≡ [])
unfolding emptied reset
emptied-IsFront s f = (
  record {
    valid = record { ordered = omega arith; within = omega arith };
    front = refl;
    one_trunk = f.one_trunk;
  },
  refl,
)

at_oversized :
    (k : Option ℕ) (wire : List ℕ) (s : Socket)
    → pack_head_size < rd_size s.recv_buffer
    → max_datasize < head_len s.recv_buffer
    → recv_data k wire s
      ≡ finish (head_len s.recv_buffer) (recv_byte pack_head_size k wire (emptied s))
unfolding recv_data emptied
at_oversized k wire s h l =
    let unequal : (rd_size s.recv_buffer == pack_head_size) ≡ false = ground arith in
    let large : ltb (rd_size s.recv_buffer) pack_head_size ≡ false = ground arith in
    rw (unequal, large, lt→ltb _ _ l)

after_stay :
    (len : ℕ) (r : Received) → deliver 2 len r.socket ≡ some r.socket → finish len r ≡ some r
after_stay len r e = rw e refl

-- Where the buffer (with its data at the front of its trunk) holds more than a head and the head
-- says more than MAX_DATASIZE, what was received of the message is thrown away, and what comes
-- behind it is taken for the beginning of a new message: buffer and kernel are left with the stream
-- from there on, and the queue is as it was.
pub recv_data-oversized :
    (k : Option ℕ) (wire : List ℕ) (s : Socket)
    → IsFront s.recv_buffer
    → pack_head_size < length (contents s.recv_buffer)
    → max_datasize < head_len s.recv_buffer
    → (r : Received) × (recv_data k wire s ≡ some r)
      × (contents r.socket.recv_buffer ++ r.wire ≡ wire)
      × (r.socket.rcv_queue ≡ s.rcv_queue)
      × (r.socket.sock ≡ s.sock)
unfolding emptied
recv_data-oversized k wire s f h l =
    let (front, nothing) = emptied-IsFront s f in
    let r = recv_byte pack_head_size k wire (emptied s) in
    let got =
      recv_byte-Got pack_head_size k wire (emptied s) front (omega (arith, ap length nothing)) in
    let few : rd_size r.socket.recv_buffer ≤ pack_head_size =
      omega (arith, size_of_front got.front, got.most, ap length nothing) in
    (
      r,
      at_oversized k wire s (omega (arith, size_of_front f, h)) l
          ∙ after_stay (head_len s.recv_buffer) r
              (deliver-stays (head_len s.recv_buffer) r.socket (inl few)),
      got.stream ∙ ap (λ xs. xs ++ wire) nothing,
      got.same_queue,
      got.same_sock,
    )

-- ===== src/Socket/Receive/Step.antt =====
-- One call of RecvData on a stream of well-formed frames.
use ugly_ff.Base.{
  ℕ, suc, ◌+◌, ◌-◌, ◌*◌, ◌≤◌, ◌<◌, ◌^◌, ◌≡◌, refl, ap, sym, ◌∙◌, ◌⊎◌, true, false, List, [], ◌++◌,
  append_assoc, Option, none, some, arith, ltb, ◌==◌, ◌&&◌, length, length-append, take, drop, min,
  ◌≢◌, take-append-drop, nil_of_length, length-take, length-drop,
}
use ugly_ff.Memory.{window, length-window}
use ugly_ff.Buffer.{
  ByteBuffer, trunk_size, reserve_dynamic, put, rd_size, rd_buf, rd_flip, wr_flip, wr_size,
}
use ugly_ff.Buffer.Laws.{IsValid, contents, put-dynamic, rd_size-length, wr_flip_lem}
use ugly_ff.Buffer.Flip.{Flipped, rd_flip-drop, rd_flip_all}
use ugly_ff.Packet.{pack_head_size}
use ugly_ff.Packet.Frames.{frame, Fair, length-frame}
use ugly_ff.Socket.{Socket}
use ugly_ff.Socket.Receive.{Received, recv_byte, deliver}

-- the buffer in which a message is put together: its data begins at the front of one trunk
pub record IsFront (b : ByteBuffer) : Type 0 where
  pub valid : IsValid b
  pub front : b.off_ptr ≡ 0
  pub one_trunk : b.max_size ≡ trunk_size

-- what a recv() of at most `ask` bytes does
pub record Got (ask : ℕ) (k : Option ℕ) (wire : List ℕ) (s : Socket) (r : Received) : Type 0 where
  pub front : IsFront r.socket.recv_buffer
  pub stream : contents r.socket.recv_buffer ++ r.wire ≡ contents s.recv_buffer ++ wire
  pub most : length (contents r.socket.recv_buffer) ≤ length (contents s.recv_buffer) + ask
  pub same_queue : r.socket.rcv_queue ≡ s.rcv_queue
  pub same_sock : r.socket.sock ≡ s.sock

reserve_front :
    (ask : ℕ) (b : ByteBuffer)
    → b.curr_ptr ≤ b.max_size
    → b.max_size ≡ trunk_size
    → b.curr_ptr + ask ≤ trunk_size
    → reserve_dynamic ask b ≡ b
unfolding reserve_dynamic
reserve_front ask b v m h =
    let enough : ltb (wr_size b) ask ≡ false = unfold wr_size in ground arith in rw enough

pub length-contents : (b : ByteBuffer) → length (contents b) ≡ b.curr_ptr - b.off_ptr
length-contents b = length-window b.buffer b.off_ptr (b.curr_ptr - b.off_ptr)

pub recv_byte-Got :
    (ask : ℕ) (k : Option ℕ) (wire : List ℕ) (s : Socket)
    → IsFront s.recv_buffer
    → length (contents s.recv_buffer) + ask ≤ trunk_size
    → Got ask k wire s (recv_byte ask k wire s)
unfolding recv_byte
recv_byte-Got ask none wire s f h =
    rw
      (reserve_front ask s.recv_buffer f.valid.within f.one_trunk
        (omega (arith, length-contents s.recv_buffer)))
      (record { front = f; stream = refl; most = omega arith; same_queue = refl; same_sock = refl })
recv_byte-Got ask (some k) wire s f h =
    rw
      (reserve_front ask s.recv_buffer f.valid.within f.one_trunk
        (omega (arith, length-contents s.recv_buffer)))
      (record {
        front = record {
          valid = w.0;
          front = unfold wr_flip in f.front;
          one_trunk = unfold wr_flip in f.one_trunk;
        };
        stream =
            ap (λ xs. xs ++ drop (min k ask) wire) w.1
            ∙ append_assoc (contents s.recv_buffer) bytes (drop (min k ask) wire)
            ∙ ap (λ xs. contents s.recv_buffer ++ xs) (take-append-drop (min k ask) wire);
        most = omega (arith, ap length w.1, length-append (contents s.recv_buffer) bytes, few);
        same_queue = refl;
        same_sock = refl;
      })
  where
    bytes : List ℕ
    bytes = take (min k ask) wire

    few : length bytes ≤ ask
    few = omega (arith, length-take (min k ask) wire)

    w :
        IsValid (wr_flip bytes s.recv_buffer)
        × (contents (wr_flip bytes s.recv_buffer) ≡ contents s.recv_buffer ++ bytes)
    w =
        wr_flip_lem bytes s.recv_buffer f.valid (omega (arith, f.one_trunk))
          (omega (arith, f.one_trunk, few, length-contents s.recv_buffer))

-- recv() takes something, if it may and there is something.
pub recv_byte-moves :
    (ask k : ℕ) (wire : List ℕ) (s : Socket)
    → 0 < ask
    → 0 < k
    → 0 < length wire
    → length (recv_byte ask (some k) wire s).wire < length wire
unfolding recv_byte
recv_byte-moves ask k wire s a h w = omega (arith, length-drop (min k ask) wire)

-- The message stays in the buffer while it is not complete,
pub deliver-stays :
    (len : ℕ) (s : Socket)
    → (rd_size s.recv_buffer ≤ pack_head_size) ⊎ (rd_size s.recv_buffer ≢ len + pack_head_size)
    → deliver 2 len s ≡ some s
unfolding deliver
deliver-stays len s h = ground arith

moved : ℕ → ByteBuffer → Socket → Socket
moved size q s = record s { rcv_queue = q; recv_buffer = rd_flip size s.recv_buffer }

deliver-round :
    (fuel len : ℕ) (q : ByteBuffer) (s : Socket)
    → rd_size s.recv_buffer ≡ len + pack_head_size
    → 0 < len
    → put (rd_buf s.recv_buffer (len + pack_head_size)) s.rcv_queue ≡ some q
    → deliver (suc fuel) len s ≡ deliver fuel len (moved (len + pack_head_size) q s)
unfolding deliver moved
deliver-round fuel len q s full h e = rw (both, e, deliver)
  where
    both :
        (ltb pack_head_size (rd_size s.recv_buffer)
          && (rd_size s.recv_buffer == len + pack_head_size))
        ≡ true
    both = ground arith

deliver-end :
    (fuel len : ℕ) (s : Socket) → rd_size s.recv_buffer ≡ 0 → deliver (suc fuel) len s ≡ some s
unfolding deliver
deliver-end fuel len s h = ground arith

-- what moving the complete command `cmd` to the queue does
pub record Delivered (cmd : List ℕ) (s t : Socket) : Type 0 where
  pub done : deliver 2 (length cmd) s ≡ some t
  pub front : IsFront t.recv_buffer
  pub emptied : contents t.recv_buffer ≡ []
  pub valid : IsValid t.rcv_queue
  pub holds : contents t.rcv_queue ≡ contents s.rcv_queue ++ frame cmd
  pub bound : t.rcv_queue.max_size < s.rcv_queue.max_size + 2 * trunk_size
  pub same_sock : t.sock ≡ s.sock

-- and goes to the queue when it is.
pub deliver-Delivered :
    (cmd : List ℕ) (s : Socket)
    → Fair cmd
    → IsFront s.recv_buffer
    → contents s.recv_buffer ≡ frame cmd
    → IsValid s.rcv_queue
    → s.rcv_queue.max_size < 2 ^ 62
    → (t : Socket) × Delivered cmd s t
unfolding moved
deliver-Delivered cmd s fair f whole v b =
    let (q, e, p) = put-dynamic (rd_buf s.recv_buffer n) s.rcv_queue v (omega (arith, few)) in
    (
      moved n q s,
      record {
        done =
            deliver-round 1 (length cmd) q s size fair.0 e
            ∙ deliver-end 0 (length cmd) (moved n q s) gone;
        front = record {
          valid = flipped.valid;
          front = reset.0;
          one_trunk = flipped.same_max ∙ f.one_trunk;
        };
        emptied = nil_of_length _ (omega (arith, length-contents (rd_flip n s.recv_buffer), reset));
        valid = p.valid;
        holds = p.holds ∙ ap (λ xs. contents s.rcv_queue ++ xs) read;
        bound = omega (arith, p.tight, few);
        same_sock = refl;
      },
    )
  where
    n : ℕ
    n = length cmd + pack_head_size

    total : s.recv_buffer.curr_ptr - s.recv_buffer.off_ptr ≡ n
    total = omega (arith, length-contents s.recv_buffer, ap length whole, length-frame cmd)

    size : rd_size s.recv_buffer ≡ length cmd + pack_head_size
    size =
        rd_size-length s.recv_buffer f.valid (omega (arith, f.one_trunk))
        ∙ ap length whole
        ∙ length-frame cmd

    read : rd_buf s.recv_buffer n ≡ frame cmd
    read =
        unfold rd_buf in
        (ap (window s.recv_buffer.buffer s.recv_buffer.off_ptr) (sym total) ∙ whole)

    few : length (rd_buf s.recv_buffer n) ≤ trunk_size
    few = omega (arith, ap length read, length-frame cmd, fair.1)

    flipped : Flipped n s.recv_buffer (rd_flip n s.recv_buffer)
    flipped = rd_flip-drop n s.recv_buffer f.valid (omega (arith, f.one_trunk, fair.1))

    reset : ((rd_flip n s.recv_buffer).off_ptr ≡ 0) × ((rd_flip n s.recv_buffer).curr_ptr ≡ 0)
    reset =
        rd_flip_all n s.recv_buffer f.valid (omega (arith, f.one_trunk, fair.1)) (omega arith)
          (omega (arith, total))

    gone : rd_size (rd_flip n s.recv_buffer) ≡ 0
    gone = unfold rd_size in omega (arith, reset)

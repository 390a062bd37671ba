-- ===== src/Socket/Receive/Call.antt =====
-- RecvData on a stream of well-formed frames: one call, and calls until the kernel is empty.
use ugly_ff.Base.{
  ℕ, ◌+◌, ◌-◌, ◌≤◌, ◌<◌, ◌^◌, ◌≡◌, ap, sym, ◌∙◌, inl, inr, true, false, List, [], ◌∷◌, ◌++◌, Option,
  some, arith, ltb, ◌==◌, lt→ltb, length, length-append, All, get_or, get_or-append_left, sub64,
}
use ugly_ff.Memory.{get_or-window}
use ugly_ff.Buffer.{ByteBuffer, rd_size}
use ugly_ff.Buffer.Laws.{contents, rd_size-length}
use ugly_ff.Packet.{pack_head, head_len, pack_head_size, max_datasize, header₀, header₁}
use ugly_ff.Packet.Frames.{frame, frames, Fair}
use native.Mathlib.Decide.{dec_lt, ℕ_discrete}
use ugly_ff.Socket.{Socket}
use ugly_ff.Socket.Receive.{Received, recv_byte, finish, recv_data}
use ugly_ff.Socket.Receive.Step.{IsFront, Got, recv_byte-Got, length-contents}
use ugly_ff.Socket.Receive.Stream.{Partial, Assembling, Advance, Advance-stays, Advance-completes}

-- Of a message that has begun, the buffer holds the byte `i` of its frame.
frame-nth :
    (b : ByteBuffer) (wire bytes : List ℕ) (i : ℕ)
    → contents b ++ wire ≡ bytes
    → i < length (contents b)
    → b.buffer (b.off_ptr + i) ≡ get_or bytes i 0
frame-nth b wire bytes i e h =
    sym (
      get_or-window b.buffer b.off_ptr (b.curr_ptr - b.off_ptr) i 0
        (omega (arith, length-contents b)))
    ∙ sym (get_or-append_left (contents b) wire i 0 h)
    ∙ ap (λ xs. get_or xs i 0) e

-- The marks and the length, once the whole head is there.
head_there :
    (b : ByteBuffer) (wire cmd more : List ℕ)
    → length cmd ≤ max_datasize
    → pack_head_size ≤ length (contents b)
    → contents b ++ wire ≡ frame cmd ++ more
    → (b.buffer b.off_ptr ≡ header₀)
      × (b.buffer (b.off_ptr + 1) ≡ header₁)
      × (head_len b ≡ length cmd)
unfolding head_len pack_head
head_there b wire cmd more h l e =
    let start : b.off_ptr ≡ b.off_ptr + 0 = omega arith in
    (
      ap b.buffer start ∙ frame-nth b wire _ 0 e (omega arith),
      frame-nth b wire _ 1 e (omega arith),
      omega (arith, frame-nth b wire _ 2 e (omega arith), frame-nth b wire _ 3 e (omega arith)),
    )

-- The three branches of RecvData that such a stream takes.
at_head :
    (k : Option ℕ) (wire : List ℕ) (s : Socket)
    → rd_size s.recv_buffer < pack_head_size
    → recv_data k wire s ≡ finish 0 (recv_byte (pack_head_size - rd_size s.recv_buffer) k wire s)
unfolding recv_data
at_head k wire s h =
    let ask : sub64 pack_head_size (rd_size s.recv_buffer)
        ≡ pack_head_size - rd_size s.recv_buffer =
      omega arith in
    let unequal : (rd_size s.recv_buffer == pack_head_size) ≡ false = ground arith in
    rw (unequal, lt→ltb _ _ h, ask)

at_length :
    (k : Option ℕ) (wire : List ℕ) (s : Socket)
    → rd_size s.recv_buffer ≡ pack_head_size
    → s.recv_buffer.buffer s.recv_buffer.off_ptr ≡ header₀
    → s.recv_buffer.buffer (s.recv_buffer.off_ptr + 1) ≡ header₁
    → recv_data k wire s
      ≡ finish (head_len s.recv_buffer) (recv_byte (head_len s.recv_buffer) k wire s)
unfolding recv_data
at_length k wire s h m₀ m₁ =
    let equal : (rd_size s.recv_buffer == pack_head_size) ≡ true = ground arith in
    rw (equal, m₀, m₁)

at_body :
    (k : Option ℕ) (wire : List ℕ) (s : Socket)
    → pack_head_size < rd_size s.recv_buffer
    → head_len s.recv_buffer ≤ max_datasize
    → rd_size s.recv_buffer ≤ pack_head_size + head_len s.recv_buffer
    → recv_data k wire s
      ≡ finish
          (head_len s.recv_buffer)
          (recv_byte (pack_head_size + head_len s.recv_buffer - rd_size s.recv_buffer) k wire s)
unfolding recv_data
at_body k wire s h len more =
    let unequal : (rd_size s.recv_buffer == pack_head_size) ≡ false = ground arith in
    let large : ltb (rd_size s.recv_buffer) pack_head_size ≡ false = ground arith in
    let fits : ltb max_datasize (head_len s.recv_buffer) ≡ false = ground arith in
    let ask : sub64 (pack_head_size + head_len s.recv_buffer) (rd_size s.recv_buffer)
        ≡ pack_head_size + head_len s.recv_buffer - rd_size s.recv_buffer =
      omega arith in
    rw (unequal, large, fits, ask)

-- what one call came to
pub record Called (k : Option ℕ) (cmds : List (List ℕ)) (wire : List ℕ) (s : Socket) (r : Received)
    : Type 0 where
  pub done : recv_data k wire s ≡ some r
  pub advance : Advance cmds s r
  pub ask : ℕ
  pub asks : 0 < ask
  pub same_wire : r.wire ≡ (recv_byte ask k wire s).wire

pub size_of_front : {b : ByteBuffer} → IsFront b → rd_size b ≡ length (contents b)
size_of_front {b} f = rd_size-length b f.valid (omega (arith, f.one_trunk))

-- The head is not complete yet.
call_at_head :
    (k : Option ℕ) (cmds : List (List ℕ)) (wire : List ℕ) (s : Socket)
    → All Fair cmds
    → Assembling cmds wire s
    → length (contents s.recv_buffer) < pack_head_size
    → (r : Received) × Called k cmds wire s r
call_at_head k cmds wire s fair a short =
    let (t, e, w, adv) =
      Advance-stays cmds ask 0 k wire s (recv_byte ask k wire s) a got (part cmds fair)
        (inl most) in
    (
      t,
      record {
        done = at_head k wire s (omega (arith, size)) ∙ e;
        advance = adv;
        ask = ask;
        asks = omega (arith, size);
        same_wire = w;
      },
    )
  where
    size : rd_size s.recv_buffer ≡ length (contents s.recv_buffer)
    size = size_of_front a.front

    ask : ℕ
    ask = pack_head_size - rd_size s.recv_buffer

    got : Got ask k wire s (recv_byte ask k wire s)
    got = recv_byte-Got ask k wire s a.front (omega (arith, size))

    most : length (contents (recv_byte ask k wire s).socket.recv_buffer) ≤ pack_head_size
    most = omega (arith, got.most, size)

    part :
        (cs : List (List ℕ))
        → All Fair cs
        → Partial cs (contents (recv_byte ask k wire s).socket.recv_buffer)
    part [] f = tt
    part (c ∷ cs) f = omega (arith, most, f.0.0)

-- The head is complete, and the rest of the message is asked for.
call_for_body :
    (k : Option ℕ) (cmd : List ℕ) (cmds : List (List ℕ)) (ask : ℕ) (wire : List ℕ) (s : Socket)
    → Fair cmd
    → s.rcv_queue.max_size < 2 ^ 62
    → Assembling (cmd ∷ cmds) wire s
    → length (contents s.recv_buffer) + ask ≡ length cmd + pack_head_size
    → recv_data k wire s ≡ finish (length cmd) (recv_byte ask k wire s)
    → (r : Received) × Called k (cmd ∷ cmds) wire s r
call_for_body k cmd cmds ask wire s fair b a total e₀ = elim (ℕ_discrete have need) [
  | yes full ↦
      let (t, e, w, adv) = Advance-completes cmd cmds ask k wire s r fair b a got full in
      (t, record { done = e₀ ∙ e; advance = adv; ask = ask; asks = some_left; same_wire = w })
  | no less ↦
      let (t, e, w, adv) =
        Advance-stays (cmd ∷ cmds) ask (length cmd) k wire s r a got (omega (arith, got.most, less))
          (inr less) in
      (t, record { done = e₀ ∙ e; advance = adv; ask = ask; asks = some_left; same_wire = w })
]
  where
    r : Received
    r = recv_byte ask k wire s

    got : Got ask k wire s r
    got = recv_byte-Got ask k wire s a.front (omega (arith, fair.1))

    have : ℕ
    have = length (contents r.socket.recv_buffer)

    need : ℕ
    need = length cmd + pack_head_size

    some_left : 0 < ask
    some_left = omega (arith, a.part)

pub recv_data-Called :
    (k : Option ℕ) (cmds : List (List ℕ)) (wire : List ℕ) (s : Socket)
    → All Fair cmds
    → s.rcv_queue.max_size < 2 ^ 62
    → Assembling cmds wire s
    → (r : Received) × Called k cmds wire s r
recv_data-Called k [] wire s fair b a =
    call_at_head k [] wire s fair a
      (omega (arith, ap length a.stream, length-append (contents s.recv_buffer) wire))
recv_data-Called k (cmd ∷ cmds) wire s fair b a = elim (dec_lt n pack_head_size) [
  | yes short ↦ call_at_head k (cmd ∷ cmds) wire s fair a short
  | no long ↦
      let (m₀, m₁, len) =
        head_there s.recv_buffer wire cmd (frames cmds) fair.0.1 (omega (arith, long)) a.stream in
      elim (ℕ_discrete n pack_head_size) [
        | yes head ↦
            call_for_body k cmd cmds (length cmd) wire s fair.0 b a (omega (arith, head)) (
              at_length k wire s (size ∙ head) m₀ m₁
              ∙ ap (λ l. finish l (recv_byte l k wire s)) len)
        | no body ↦
            call_for_body k cmd cmds (pack_head_size + length cmd - rd_size s.recv_buffer) wire s
              fair.0 b a (omega (arith, a.part, size, long))
              (at_body k wire s (omega (arith, size, long, body)) (omega (arith, len, fair.0.1))
                  (omega (arith, len, size, a.part))
                ∙ ap
                    (λ l.
                      finish l (recv_byte (pack_head_size + l - rd_size s.recv_buffer) k wire s))
                    len)
      ]
]
  where
    n : ℕ
    n = length (contents s.recv_buffer)

    size : rd_size s.recv_buffer ≡ n
    size = size_of_front a.front

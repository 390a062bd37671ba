-- ===== src/Socket/Send/Stream.antt =====
-- The stream that a socket sends: whatever the kernel takes at a time, the bytes that went out and
-- those that wait are the frames of the commands, in order.
use ugly_ff.Base.{
  ℕ, ◌+◌, ◌-◌, ◌*◌, ◌≤◌, ◌<◌, ◌^◌, ◌≡◌, refl, ap, ◌∙◌, ◌⊎◌, inl, inr, Bool, true, false, List, [],
  ◌∷◌, ◌++◌, append-nil, some, arith, Bool-cases, ltb, length, min, if◌then◌else◌, take-append-drop,
  take_all, nil_of_length,
}
use ugly_ff.Memory.{window, length-window}
use ugly_ff.Buffer.{ByteBuffer, trunk_size, new_buffer, put, rd_size, rd_buf, rd_flip}
use ugly_ff.Buffer.Laws.{IsValid, contents, put-dynamic, rd_size-length}
use ugly_ff.Buffer.Flip.{Flipped, rd_flip-drop}
use ugly_ff.Packet.{packet_append, pack_head_size}
use ugly_ff.Packet.Frames.{frame, packet_append-frame}
use ugly_ff.Socket.{eagain, ewouldblock, eintr, other, Socket}
use ugly_ff.Socket.Send.{Sending, room, failed, Sent, enqueue, send_raw, send_cmd, with_result}

-- the state of the sending side between calls: the queue is valid, and its size fits into an int
pub record Ready (s : Socket) : Type 0 where
  pub valid : IsValid s.send_queue
  pub bound : s.send_queue.max_size < 2 ^ 31

pub rd_buf-contents :
    (b : ByteBuffer) → IsValid b → b.max_size < 2 ^ 64 → rd_buf b (rd_size b) ≡ contents b
unfolding rd_buf rd_size
rd_buf-contents b v h = ap (window b.buffer b.off_ptr) (omega arith)

-- After a call that was given `bytes` to send: what went out, followed by what waits, is what waited
-- before, followed by `bytes`.
pub record Sends (bytes : List ℕ) (s : Socket) (r : Sent) : Type 0 where
  pub accepted : r.ok ≡ true
  pub valid : IsValid r.socket.send_queue
  pub stream : r.wire ++ contents r.socket.send_queue ≡ contents s.send_queue ++ bytes
  pub bound : r.socket.send_queue.max_size < s.send_queue.max_size + 2 * trunk_size

-- A call that failed sent nothing, and left what waits as it was.
pub record Fails (s : Socket) (r : Sent) : Type 0 where
  pub refused : r.ok ≡ false
  pub nothing : r.wire ≡ []
  pub same : r.socket.send_queue ≡ s.send_queue

queued : Socket → ByteBuffer → Socket
queued s q = record s { send_queue = q }

-- the queue `q` of `s`, after `raw` was put behind it
record Queued (raw : ByteBuffer) (s : Socket) (q : ByteBuffer) : Type 0 where
  done : enqueue raw s ≡ some (queued s q)
  valid : IsValid q
  holds : contents q ≡ contents s.send_queue ++ contents raw
  bound : q.max_size < s.send_queue.max_size + 2 * trunk_size

after_put :
    (raw q : ByteBuffer) (s : Socket)
    → put (rd_buf raw (rd_size raw)) s.send_queue ≡ some q
    → enqueue raw s ≡ some (queued s q)
unfolding enqueue queued
after_put raw q s e = rw e

enqueue-Queued :
    (raw : ByteBuffer) (s : Socket)
    → IsValid raw
    → raw.max_size ≡ trunk_size
    → Ready s
    → (q : ByteBuffer) × Queued raw s q
enqueue-Queued raw s v m r =
    let (q, e, p) =
      put-dynamic (rd_buf raw (rd_size raw)) s.send_queue r.valid (omega (arith, small, r.bound)) in
    (
      q,
      record {
        done = after_put raw q s e;
        valid = p.valid;
        holds = p.holds ∙ ap (◌++◌ (contents s.send_queue)) all;
        bound = omega (arith, p.tight, small);
      },
    )
  where
    all : rd_buf raw (rd_size raw) ≡ contents raw
    all = rd_buf-contents raw v (omega arith)

    small : length (rd_buf raw (rd_size raw)) ≤ trunk_size
    small =
        rw all (omega (arith, length-window raw.buffer raw.off_ptr (raw.curr_ptr - raw.off_ptr)))

after_enqueue :
    (wire : List ℕ) (raw q : ByteBuffer) (s : Socket)
    → enqueue raw s ≡ some (queued s q)
    → with_result true wire (enqueue raw s)
      ≡ some (record { ok = true; wire = wire; socket = queued s q })
after_enqueue wire raw q s e = rw e

-- `wire` went out, and `raw` is queued.
enqueue-Sends :
    (wire bytes : List ℕ) (raw : ByteBuffer) (s : Socket)
    → IsValid raw
    → raw.max_size ≡ trunk_size
    → Ready s
    → wire ++ (contents s.send_queue ++ contents raw) ≡ contents s.send_queue ++ bytes
    → (r : Sent) × (with_result true wire (enqueue raw s) ≡ some r) × Sends bytes s r
unfolding queued
enqueue-Sends wire bytes raw s v m r split =
    let (q, p) = enqueue-Queued raw s v m r in
    (
      _,
      after_enqueue wire raw q s p.done,
      record {
        accepted = refl;
        valid = p.valid;
        stream = ap (λ xs. wire ++ xs) p.holds ∙ split;
        bound = p.bound;
      },
    )

-- The kernel takes what it has room for of a packet, and the rest is queued.
send_room :
    (raw : ByteBuffer) (k : ℕ) (s : Socket)
    → IsValid raw
    → raw.max_size ≡ trunk_size
    → contents s.send_queue ≡ []
    → Ready s
    → (r : Sent) × (send_raw raw (room k) s ≡ some r) × Sends (contents raw) s r
unfolding send_raw
send_room raw k s v m nothing r = elim (Bool-cases (ltb (min k (rd_size raw)) (rd_size raw))) [
  | inr full ↦ rw full (
    _,
    refl,
    record {
      accepted = refl;
      valid = r.valid;
      stream = rw (nothing, append-nil, all) (take_all _ (contents raw) (ground (arith, size)));
      bound = omega arith;
    },
  )
  | inl part ↦ rw part (
      enqueue-Sends _ (contents raw) (rd_flip n raw) s flipped.valid (flipped.same_max ∙ m) r
        (rw (nothing, all, flipped.holds) (take-append-drop n (contents raw))))
]
  where
    n : ℕ
    n = min k (rd_size raw)

    all : rd_buf raw (rd_size raw) ≡ contents raw
    all = rd_buf-contents raw v (omega arith)

    size : rd_size raw ≡ length (contents raw)
    size = rd_size-length raw v (omega arith)

    flipped : Flipped n raw (rd_flip n raw)
    flipped =
        rd_flip-drop n raw v
          (omega (arith, size, length-window raw.buffer raw.off_ptr (raw.curr_ptr - raw.off_ptr)))

-- the outcome of a call that was given `bytes` to send
abbrev pub Outcome : List ℕ → Socket → Sent → Type 0
Outcome bytes s r = Sends bytes s r ⊎ Fails s r

-- Sending a packet past an empty queue: after EAGAIN, EWOULDBLOCK or EINTR all of it waits, and any
-- other error closes the socket.
send_raw-Outcome :
    (raw : ByteBuffer) (sending : Sending) (s : Socket)
    → IsValid raw
    → raw.max_size ≡ trunk_size
    → contents s.send_queue ≡ []
    → Ready s
    → (r : Sent) × (send_raw raw sending s ≡ some r) × Outcome (contents raw) s r
unfolding send_raw
send_raw-Outcome raw (room k) s v m nothing r =
    let (t, e, o) = send_room raw k s v m nothing r in (t, e, inl o)
send_raw-Outcome raw (failed other) s v m nothing r =
    (_, refl, inr (record { refused = refl; nothing = refl; same = refl }))
send_raw-Outcome raw (failed eagain) s v m nothing r =
    let (t, e, o) = enqueue-Sends [] (contents raw) raw s v m r refl in (t, e, inl o)
send_raw-Outcome raw (failed ewouldblock) s v m nothing r =
    let (t, e, o) = enqueue-Sends [] (contents raw) raw s v m r refl in (t, e, inl o)
send_raw-Outcome raw (failed eintr) s v m nothing r =
    let (t, e, o) = enqueue-Sends [] (contents raw) raw s v m r refl in (t, e, inl o)

after_packing :
    (x : ℕ) (cmd : List ℕ) (buffer : Bool) (sending : Sending) (s : Socket) {raw : ByteBuffer}
    → packet_append (x ∷ cmd) new_buffer ≡ some raw
    → send_cmd (some (x ∷ cmd)) buffer sending s ≡ (
        if buffer
        then with_result true [] (enqueue raw s)
        else if ltb 0 (rd_size s.send_queue)
        then with_result true [] (enqueue raw s)
        else send_raw raw sending s)
unfolding send_cmd
after_packing x cmd buffer sending s e = rw e

dispatch-Outcome :
    (buffer : Bool) (raw : ByteBuffer) (sending : Sending) (s : Socket)
    → IsValid raw
    → raw.max_size ≡ trunk_size
    → Ready s
    → (r : Sent) × ((if buffer
          then with_result true [] (enqueue raw s)
          else if ltb 0 (rd_size s.send_queue)
          then with_result true [] (enqueue raw s)
          else send_raw raw sending s)
        ≡ some r)
      × Outcome (contents raw) s r
dispatch-Outcome true raw sending s v m r =
    let (t, e, o) = enqueue-Sends [] (contents raw) raw s v m r refl in (t, e, inl o)
dispatch-Outcome false raw sending s v m r = elim (Bool-cases (ltb 0 (rd_size s.send_queue))) [
  | inl waits ↦
      let (t, e, o) = enqueue-Sends [] (contents raw) raw s v m r refl in (t, rw waits e, inl o)
  | inr empty ↦
      let nothing =
        nil_of_length (contents s.send_queue)
          (ground (arith, rd_size-length s.send_queue r.valid (omega (arith, r.bound)))) in
      let (t, e, o) = send_raw-Outcome raw sending s v m nothing r in (t, rw empty e, o)
]

-- `sendCmd` of a command of 1 to 65532 bytes, over a valid queue of less than 2^31 bytes, never
-- writes outside a buffer. It either accepts the command, and then what went to the kernel followed
-- by what waits in the queue is what waited before followed by the command's frame; or it fails
-- with nothing sent and the queue as it was.
pub send_cmd-Outcome :
    (cmd : List ℕ) (buffer : Bool) (sending : Sending) (s : Socket)
    → 0 < length cmd
    → length cmd + pack_head_size ≤ trunk_size
    → Ready s
    → (r : Sent) × (send_cmd (some cmd) buffer sending s ≡ some r) × Outcome (frame cmd) s r
send_cmd-Outcome [] buffer sending s h _ r = absurd (omega arith)
send_cmd-Outcome (x ∷ cmd) buffer sending s _ h r = elim (packet_append-frame (x ∷ cmd)) [
  | inr (over, _) ↦ absurd (omega arith)
  | inl (_, (raw, p)) ↦
      let (t, e, o) = dispatch-Outcome buffer raw sending s p.valid p.same_max r in
      (t, after_packing x cmd buffer sending s p.done ∙ e, rw p.holds at o)
]

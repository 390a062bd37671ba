-- ===== src/Socket/Send/Session.antt =====
-- Whole sessions of the sending side: calls of sendCmd and sync in any order.
use ugly_ff.Base.{
  ℕ, zero, suc, ◌+◌, ◌-◌, ◌*◌, ◌≤◌, ◌<◌, ◌^◌, ◌≡◌, refl, ap, ap₂, sym, ◌∙◌, inl, inr, Bool, true,
  false, List, [], ◌∷◌, ◌++◌, append_assoc, append-nil, Option, some, arith, Bool-cases, ltb,
  length, take, min, All, if◌then◌else◌, take-append-drop, to_int-small,
}
use ugly_ff.Memory.{length-window}
use ugly_ff.Buffer.{trunk_size, rd_size, rd_ready, rd_flip}
use ugly_ff.Buffer.Laws.{IsValid, contents, rd_size-le}
use ugly_ff.Buffer.Flip.{Flipped, rd_flip-drop}
use ugly_ff.Packet.{pack_head_size, ◌>>=◌}
use ugly_ff.Packet.Frames.{frame, frames, frames-append}
use ugly_ff.Socket.{eagain, ewouldblock, eintr, other, Socket}
use ugly_ff.Socket.Send.{
  Sending, room, failed, Sent, send_cmd, sync, send_raw_data_no_poll, after_send,
}
use ugly_ff.Socket.Send.Stream.{Ready, Sends, Outcome, rd_buf-contents, send_cmd-Outcome}

-- what `sync` comes to where data waits
sync-waiting :
    (sending : Sending) (s : Socket)
    → rd_ready s.send_queue ≡ true
    → Ready s
    → sync sending s ≡ some (after_send (send_raw_data_no_poll (contents s.send_queue) sending) s)
unfolding sync
sync-waiting sending s waits r =
    rw (waits, to_int-small (rd_size s.send_queue) small, sync)
      (ap (λ bytes. some (after_send (send_raw_data_no_poll bytes sending) s))
        (rd_buf-contents s.send_queue r.valid (omega (arith, r.bound))))
  where
    small : rd_size s.send_queue < 2 ^ 31
    small = omega (arith, r.bound, rd_size-le s.send_queue r.valid (omega (arith, r.bound)))

take-min {ℓ} : {A : Type ℓ} (k : ℕ) (xs : List A) → take (min k (length xs)) xs ≡ take k xs
take-min zero xs = let z : min 0 (length xs) ≡ 0 = omega arith in rw z
take-min (suc k) [] = let z : min (suc k) 0 ≡ 0 = omega arith in rw z
take-min (suc k) (x ∷ xs) =
    let step : min (suc k) (suc (length xs)) ≡ suc (min k (length xs)) = omega arith in
    rw step (ap (λ ys. x ∷ ys) (take-min k xs))

-- the kernel's `room` for `k` bytes, after one `sync`
sync-room :
    (k : ℕ) (s : Socket)
    → Ready s
    → let r : Sent = after_send (send_raw_data_no_poll (contents s.send_queue) (room k)) s in
      Sends [] s r × (r.wire ≡ take k (contents s.send_queue))
unfolding after_send send_raw_data_no_poll
sync-room k s r = elim (Bool-cases (ltb 0 n)) [
  | inl some_go ↦ rw some_go (
    record {
      accepted = refl;
      valid = flipped.valid;
      stream = ap (λ xs. take n c ++ xs) flipped.holds ∙ take-append-drop n c ∙ sym (append-nil c);
      bound = omega (arith, flipped.same_max);
    },
    cut,
  )
  | inr none_goes ↦
      let z : n ≡ 0 = ground arith in
      rw none_goes (
        record {
          accepted = refl;
          valid = r.valid;
          stream = rw z (sym (append-nil c));
          bound = omega arith;
        },
        cut,
      )
]
  where
    c : List ℕ
    c = contents s.send_queue

    n : ℕ
    n = min k (length c)

    flipped : Flipped n s.send_queue (rd_flip n s.send_queue)
    flipped = rd_flip-drop n s.send_queue r.valid (
        omega (
          arith,
          r.bound,
          length-window s.send_queue.buffer s.send_queue.off_ptr
              (s.send_queue.curr_ptr - s.send_queue.off_ptr),
        ))

    cut : take n c ≡ take k c
    cut = take-min k c

-- a call that sends nothing and keeps all
sync-idle_lem : (s : Socket) → Ready s → Sends [] s (record { ok = true; wire = []; socket = s })
sync-idle_lem s r = record {
  accepted = refl;
  valid = r.valid;
  stream = sym (append-nil (contents s.send_queue));
  bound = omega arith;
}

waiting-Outcome :
    (sending : Sending) (s : Socket)
    → Ready s
    → Outcome [] s (after_send (send_raw_data_no_poll (contents s.send_queue) sending) s)
unfolding after_send send_raw_data_no_poll
waiting-Outcome (room k) s r = inl (sync-room k s r).0
waiting-Outcome (failed eagain) s r = inl (sync-idle_lem s r)
waiting-Outcome (failed ewouldblock) s r = inl (sync-idle_lem s r)
waiting-Outcome (failed eintr) s r = inr (record { refused = refl; nothing = refl; same = refl })
waiting-Outcome (failed other) s r = inr (record { refused = refl; nothing = refl; same = refl })

sync-idle :
    (sending : Sending) (s : Socket)
    → rd_ready s.send_queue ≡ false
    → sync sending s ≡ some (record { ok = true; wire = []; socket = s })
unfolding sync
sync-idle sending s idle = rw idle

-- Over a valid queue of less than 2^31 bytes, `sync` passes a size that an `int` holds. It either
-- sends a beginning of what waits and keeps the rest, in order, or fails with nothing sent and the
-- queue as it was.
pub sync-Outcome :
    (sending : Sending) (s : Socket)
    → Ready s
    → (r : Sent) × (sync sending s ≡ some r) × Outcome [] s r
sync-Outcome sending s r = elim (Bool-cases (rd_ready s.send_queue)) [
  | inl waits ↦ (_, sync-waiting sending s waits r, waiting-Outcome sending s r)
  | inr idle ↦ (_, sync-idle sending s idle, inl (sync-idle_lem s r))
]

-- the calls of one session
pub data Call : Type 0 where
  sends : List ℕ → Bool → Sending → Call
  syncs : Sending → Call

unfoldable pub invoke : Call → Socket → Option Sent
invoke (sends cmd buffer sending) s = send_cmd (some cmd) buffer sending s
invoke (syncs sending) s = sync sending s

-- the command that a call was given, if it accepted it
unfoldable pub accepted : Call → Bool → List (List ℕ)
accepted (sends cmd buffer sending) ok = if ok then cmd ∷ [] else []
accepted (syncs sending) ok = []

-- what a session has done: the bytes that the kernel took, the commands accepted, and the socket
pub record Session : Type 0 where
  pub wire : List ℕ
  pub cmds : List (List ℕ)
  pub socket : Socket

unfoldable pub session : List Call → Socket → Option Session
session [] s = some (record { wire = []; cmds = []; socket = s })
session (c ∷ cs) s = do
  r ← invoke c s
  rest ← session cs r.socket
  some (record {
    wire = r.wire ++ rest.wire;
    cmds = accepted c r.ok ++ rest.cmds;
    socket = rest.socket;
  })

-- commands that are not empty and fit into the array on the stack
abbrev pub Sendable : Call → Type 0
Sendable (sends cmd buffer sending) = (0 < length cmd) × (length cmd + pack_head_size ≤ trunk_size)
Sendable (syncs sending) = Unit

-- one call: its result, and the bytes that it took on
record Invoked (c : Call) (s : Socket) (r : Sent) : Type 0 where
  done : invoke c s ≡ some r
  valid : IsValid r.socket.send_queue
  bound : r.socket.send_queue.max_size < s.send_queue.max_size + 2 * trunk_size
  stream :
      r.wire ++ contents r.socket.send_queue ≡ contents s.send_queue ++ frames (accepted c r.ok)

Outcome-Invoked :
    (c : Call) (s : Socket) (r : Sent) (bytes : List ℕ)
    → Ready s
    → frames (accepted c true) ≡ bytes
    → frames (accepted c false) ≡ []
    → invoke c s ≡ some r
    → Outcome bytes s r
    → Invoked c s r
Outcome-Invoked c s r bytes v y n e (inl o) = record {
  done = e;
  valid = o.valid;
  bound = o.bound;
  stream =
      o.stream
      ∙ ap (λ xs. contents s.send_queue ++ xs)
          (sym (ap (λ b. frames (accepted c b)) o.accepted ∙ y));
}
Outcome-Invoked c s r bytes v y n e (inr o) = record {
  done = e;
  valid = rw o.same v.valid;
  bound = rw o.same (omega arith);
  stream =
      ap₂ ◌++◌ o.nothing (ap contents o.same)
      ∙ sym (
          ap (λ xs. contents s.send_queue ++ xs) (ap (λ b. frames (accepted c b)) o.refused ∙ n)
          ∙ append-nil _);
}

invoke-Invoked : (c : Call) (s : Socket) → Sendable c → Ready s → (r : Sent) × Invoked c s r
unfolding invoke accepted
invoke-Invoked (sends cmd buffer sending) s h v =
    let (r, e, o) = send_cmd-Outcome cmd buffer sending s h.0 h.1 v in
    (r, Outcome-Invoked _ s r (frame cmd) v (append-nil (frame cmd)) refl e o)
invoke-Invoked (syncs sending) s h v =
    let (r, e, o) = sync-Outcome sending s v in (r, Outcome-Invoked _ s r [] v refl refl e o)

then_session :
    (c : Call) (cs : List Call) (s : Socket) {r : Sent} {t : Session}
    → invoke c s ≡ some r
    → session cs r.socket ≡ some t
    → session (c ∷ cs) s
      ≡ some
          (record { wire = r.wire ++ t.wire; cmds = accepted c r.ok ++ t.cmds; socket = t.socket })
unfolding session
then_session c cs s e f = rw (e, f)

-- Two stretches of a stream, one after the other.
join_streams :
    (w₁ w₂ q₀ q₁ q₂ b₁ b₂ : List ℕ)
    → w₁ ++ q₁ ≡ q₀ ++ b₁
    → w₂ ++ q₂ ≡ q₁ ++ b₂
    → (w₁ ++ w₂) ++ q₂ ≡ q₀ ++ (b₁ ++ b₂)
join_streams w₁ w₂ q₀ q₁ q₂ b₁ b₂ h k =
    append_assoc w₁ w₂ q₂
    ∙ ap (λ xs. w₁ ++ xs) k
    ∙ sym (append_assoc w₁ q₁ b₂)
    ∙ ap (λ xs. xs ++ b₂) h
    ∙ append_assoc q₀ b₁ b₂

-- Whatever the order of sendCmd and sync and whatever the kernel takes or refuses, no call writes
-- outside a buffer, and what went to the kernel followed by what still waits is what waited at the
-- start followed by the frames of the accepted commands: nothing is lost, doubled or reordered.
-- Commands have 1 to 65532 bytes, and the queue, whose worst-case size grows by two trunks for each
-- call, stays below 2^31 bytes.
pub session-stream :
    (cs : List Call) (s : Socket)
    → All Sendable cs
    → IsValid s.send_queue
    → s.send_queue.max_size + 2 * trunk_size * length cs < 2 ^ 31
    → (t : Session) × (session cs s ≡ some t)
      × IsValid t.socket.send_queue
      × (t.wire ++ contents t.socket.send_queue ≡ contents s.send_queue ++ frames t.cmds)
unfolding session
session-stream [] s h v b = (_, refl, v, sym (append-nil (contents s.send_queue)))
session-stream (c ∷ cs) s h v b =
    let (r, i) = invoke-Invoked c s h.0 (record { valid = v; bound = omega arith }) in
    let (t, e, w, q) = session-stream cs r.socket h.1 i.valid (omega (arith, i.bound)) in
    (
      _,
      then_session c cs s i.done e,
      w,
      join_streams r.wire t.wire _ _ _ (frames (accepted c r.ok)) (frames t.cmds) i.stream q
          ∙ ap (λ xs. contents s.send_queue ++ xs) (sym (frames-append (accepted c r.ok) t.cmds)),
    )

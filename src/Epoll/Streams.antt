-- ===== src/Epoll/Streams.antt =====
-- The epoll thread over many sockets, each with a stream of frames.
use ugly_ff.Base.{
  ℕ, suc, ◌+◌, ◌*◌, ◌<◌, ◌^◌, ◌≡◌, refl, ap, sym, ◌∙◌, subst, inl, inr, Bool, true, false,
  Bool-cases, List, [], ◌∷◌, Option, none, some, if◌then◌else◌, ◌==◌, ==_iff, length, All, arith,
}
use ugly_ff.Buffer.{trunk_size}
use ugly_ff.Packet.Frames.{Fair}
use ugly_ff.Socket.{Socket, disconnect}
use ugly_ff.Socket.Receive.{Received, recv_data}
use ugly_ff.Socket.Receive.Stream.{Assembling}
use ugly_ff.Socket.Receive.Call.{recv_data-Called}
use ugly_ff.Socket.Receive.Run.{All-split}
use ugly_ff.Epoll.{
  Mask, mask_in, mask_err, mask_hup, land, is_set, Event, Net, put_at, close_socket, is_harmless,
  is_zero, receive_for, handle, handle_all,
}
use ugly_ff.Epoll.Gains.{Fed, Fed-stays, Fed-then, Advance-Fed, Fed-disconnect}

-- the error bits are never seen
no_error : (m : Mask) → is_set (land (land (land m mask_err) m) mask_hup) ≡ false
unfolding is_set land
no_error m = ground arith

put_at-there {ℓ} :
    {A : Type ℓ} (p q : ℕ) (x : A) (f : ℕ → A) → (q == p) ≡ false → put_at p x f q ≡ f q
unfolding put_at
put_at-there p q x f e = rw e refl

put_at-here {ℓ} : {A : Type ℓ} (p q : ℕ) (x : A) (f : ℕ → A) → (q == p) ≡ true → put_at p x f q ≡ x
unfolding put_at
put_at-here p q x f e = rw e refl

-- every socket's stream, before some more calls
pub record Streams (cmds : ℕ → List (List ℕ)) (n : Net) (calls : ℕ) : Type 0 where
  pub fair : (p : ℕ) → All Fair (cmds p)
  pub bound : (p : ℕ) → (n.sockets p).rcv_queue.max_size + 2 * trunk_size * calls < 2 ^ 62
  pub assembling : (p : ℕ) → Assembling (cmds p) (n.wires p) (n.sockets p)

-- one socket's new state
update-Fed :
    (cmds : ℕ → List (List ℕ)) (n : Net) (p : ℕ) (t : Socket) (w : List ℕ)
    → ((q : ℕ) → Assembling (cmds q) (n.wires q) (n.sockets q))
    → Fed (cmds p) (n.sockets p) w t 1
    → (q : ℕ) → Fed (cmds q) (n.sockets q) (put_at p w n.wires q) (put_at p t n.sockets q) 1
update-Fed cmds n p t w a f q = elim (Bool-cases (q == p)) [
  | inl y ↦
      rw (put_at-here p q w n.wires y, put_at-here p q t n.sockets y)
        (subst (λ r. Fed (cmds r) (n.sockets r) w t 1) (sym ((==_iff q p).0 y)) f)
  | inr m ↦
      rw (put_at-there p q w n.wires m, put_at-there p q t n.sockets m)
        (Fed-stays (cmds q) (n.wires q) (n.sockets q) 1 (a q))
]

-- what one event does to every socket
abbrev AllFed : (ℕ → List (List ℕ)) → Net → Net → ℕ → Type 0
AllFed cmds n m calls = (q : ℕ) → Fed (cmds q) (n.sockets q) (m.wires q) (m.sockets q) calls

close-AllFed :
    (cmds : ℕ → List (List ℕ)) (n m : Net) (p : ℕ)
    → AllFed cmds n m 1
    → AllFed cmds n (close_socket p m) 1
unfolding close_socket
close-AllFed cmds n m p f q = elim (Bool-cases (q == p)) [
  | inl y ↦
      rw (put_at-here p q (disconnect (m.sockets p)) m.sockets y)
        (rw (ap (λ r. disconnect (m.sockets r)) (sym ((==_iff q p).0 y))) (Fed-disconnect (f q)))
  | inr d ↦ rw (put_at-there p q (disconnect (m.sockets p)) m.sockets d) (f q)
]

-- the net after RecvData on socket `p`
after_receive : ℕ → Received → Net → Net
after_receive p r n = record n {
  sockets = put_at p r.socket n.sockets;
  wires = put_at p r.wire n.wires;
}

after_call :
    (ev : Event) (p : ℕ) (n : Net) {r : Received}
    → recv_data ev.hands (n.wires p) (n.sockets p) ≡ some r
    → receive_for ev p n
      ≡ some (
          if is_zero r.ret
          then (if is_harmless ev.errno
              then after_receive p r n
              else close_socket p (after_receive p r n))
          else after_receive p r n)
unfolding receive_for after_receive
after_call ev p n e = rw e refl

receive-AllFed :
    (ev : Event) (p : ℕ) (cmds : ℕ → List (List ℕ)) (n : Net) (calls : ℕ)
    → Streams cmds n (suc calls)
    → (m : Net) × (receive_for ev p n ≡ some m) × AllFed cmds n m 1
unfolding after_receive
receive-AllFed ev p cmds n calls g =
    let (r, c) =
      recv_data-Called ev.hands (cmds p) (n.wires p) (n.sockets p) (g.fair p)
        (let b = g.bound p in omega arith) (g.assembling p) in
    let fed : AllFed cmds n (after_receive p r n) 1 =
      update-Fed cmds n p r.socket r.wire g.assembling (Advance-Fed c.advance) in
    (_, after_call ev p n c.done, ended (is_zero r.ret) (is_harmless ev.errno) r fed)
  where
    ended :
        (b d : Bool) (r : Received)
        → AllFed cmds n (after_receive p r n) 1
        → AllFed cmds n
            (if b
              then (if d then after_receive p r n else close_socket p (after_receive p r n))
              else after_receive p r n)
            1
    ended true true r f = f
    ended true false r f = close-AllFed cmds n (after_receive p r n) p f
    ended false d r f = f

quiet-AllFed :
    (cmds : ℕ → List (List ℕ)) (n : Net) (calls : ℕ) → Streams cmds n calls → AllFed cmds n n 1
quiet-AllFed cmds n calls g q = Fed-stays (cmds q) (n.wires q) (n.sockets q) 1 (g.assembling q)

readable-AllFed :
    (ev : Event) (o : Option ℕ) (cmds : ℕ → List (List ℕ)) (n : Net) (calls : ℕ)
    → Streams cmds n (suc calls)
    → (m : Net) × ((elim o [ none ↦ some n | some p ↦ receive_for ev p n ]) ≡ some m)
      × AllFed cmds n m 1
readable-AllFed ev none cmds n calls g = (n, refl, quiet-AllFed cmds n (suc calls) g)
readable-AllFed ev (some p) cmds n calls g = receive-AllFed ev p cmds n calls g

handle-AllFed :
    (ev : Event) (cmds : ℕ → List (List ℕ)) (n : Net) (calls : ℕ)
    → Streams cmds n (suc calls)
    → (m : Net) × (handle ev n ≡ some m) × AllFed cmds n m 1
unfolding handle
handle-AllFed ev cmds n calls g = elim (Bool-cases (is_set (land ev.events mask_in))) [
  | inl y ↦ rw (no_error ev.events, y) (readable-AllFed ev ev.ptr cmds n calls g)
  | inr d ↦ rw (no_error ev.events, d) (n, refl, quiet-AllFed cmds n (suc calls) g)
]

then_handle :
    (ev : Event) (evs : List Event) (n : Net) {m : Net}
    → handle ev n ≡ some m
    → handle_all (ev ∷ evs) n ≡ handle_all evs m
unfolding handle_all
then_handle ev evs n e = rw e refl

next-Streams :
    (cmds : ℕ → List (List ℕ)) (n m : Net) (calls : ℕ)
    → Streams cmds n (suc calls)
    → (f : AllFed cmds n m 1) → Streams (λ q. (f q).rest) m calls
next-Streams cmds n m calls g f = record {
  fair = λ q. All-split (cmds q) (f q).done (f q).rest (f q).split (g.fair q);
  bound = λ q. let b = g.bound q in omega (arith, (f q).bound);
  assembling = λ q. (f q).next;
}

handle_all-AllFed :
    (evs : List Event) (cmds : ℕ → List (List ℕ)) (n : Net)
    → Streams cmds n (length evs)
    → (m : Net) × (handle_all evs n ≡ some m) × AllFed cmds n m (length evs)
unfolding handle_all
handle_all-AllFed [] cmds n g =
    (n, refl, λ q. Fed-stays (cmds q) (n.wires q) (n.sockets q) 0 (g.assembling q))
handle_all-AllFed (ev ∷ evs) cmds n g =
    let (m, e, f) = handle-AllFed ev cmds n (length evs) g in
    let (l, e₂, f₂) =
      handle_all-AllFed evs (λ q. (f q).rest) m (next-Streams cmds n m (length evs) g f) in
    (l, then_handle ev evs n e ∙ e₂, λ q. Fed-then (f q) (f₂ q))

-- Where each socket's peer sends frames of commands of 1 to 65526 bytes (and the queues are far from
-- the end of 64 bits), the loop over any events never faults, and puts complete commands into each
-- socket's queue, in the order of its stream and each of them once, whatever recv() hands over, what
-- errno holds and which sockets are closed on the way.
pub handle_all-Fed :
    (evs : List Event) (cmds : ℕ → List (List ℕ)) (n : Net) (q : ℕ)
    → Streams cmds n (length evs)
    → (m : Net) × (handle_all evs n ≡ some m)
      × Fed (cmds q) (n.sockets q) (m.wires q) (m.sockets q) (length evs)
handle_all-Fed evs cmds n q g = let (m, e, f) = handle_all-AllFed evs cmds n g in (m, e, f q)

-- ===== src/SubNet/Waits.antt =====
-- include/zSubNetService.cpp: how the loop ends in which zSubNetService::init waits for its answer.
use ugly_ff.Base.{
  is_minus_one, ℕ, ◌≡◌, refl, ap, sym, ◌∙◌, ◌⊎◌, inl, inr, Bool, true, false, not, List, [], ◌∷◌,
  Option, none, some, if◌then◌else◌, ℤ, minus_one, arith,
}
use ugly_ff.Packet.{max_datasize}
use ugly_ff.Packet.Results.{Post, no_result, result, Post-some, Post-chain}
use ugly_ff.Socket.{poll_recv}
use ugly_ff.Socket.Receive.{Command, recv_to_cmd, Received, recv_data}
use ugly_ff.Task.{is_positive}
use ugly_ff.SubNet.{
  InitRound, Waiting, Turn, returns, continues, is_retry, return_false, parsed, took, received,
  after_recv, wait_turn, wait_loop, super_msg_parse,
}

-- What breaks the connection in a round in which RecvData gave `got`: recv() fails for good; or the
-- peer has closed; or the socket is found to be closed.
pub data Fatal (r : InitRound) (got : Received) : Type 0 where
  failed : is_minus_one got.ret ≡ true → is_retry r.errno ≡ false → Fatal r got
  peer_closed : is_minus_one got.ret ≡ false → is_positive got.ret ≡ false → Fatal r got
  closed : is_minus_one (poll_recv got.socket) ≡ true → Fatal r got
  closed_late :
      {c : Command}
      → recv_to_cmd max_datasize got.socket ≡ some c
      → is_minus_one c.ret ≡ true
      → Fatal r got

-- From `w` on the client stays unverified, until in one of the rounds the connection breaks.
pub data Breaks (stale : ℕ) : List InitRound → Waiting → Type 0 where
  here :
      {r : InitRound} {rs : List InitRound} {w : Waiting} {got : Received}
      → w.verified ≡ false
      → recv_data r.hands w.wire w.socket ≡ some got
      → Fatal r got
      → Breaks stale (r ∷ rs) w
  later :
      {r : InitRound} {rs : List InitRound} {w u : Waiting}
      → w.verified ≡ false
      → wait_turn stale r w ≡ some (continues u)
      → Breaks stale rs u
      → Breaks stale (r ∷ rs) w

pub known : {A : Type 0} (o : Option A) → Post (λ a. o ≡ some a) o
known none = no_result
known (some a) = result refl

-- A round that returns has not set `verified`, and returns false, or -1 where the connection broke.
abbrev Returned : InitRound → Received → Bool → Turn → Type 0
Returned r got verified (returns z w) =
    (w.verified ≡ verified) × (((z ≡ minus_one) × Fatal r got) ⊎ (z ≡ return_false))
Returned r got verified (continues w) = Unit {0}

super_msg_parse_refused :
    (stale : ℕ) (msg : List ℕ) (verified : Bool)
    → (super_msg_parse stale msg verified).0 ≡ false
    → (super_msg_parse stale msg verified).1 ≡ verified
unfolding super_msg_parse
super_msg_parse_refused stale msg verified h = ground arith

module _ (r : InitRound) (got : Received) (v : Bool) where
  Returned-if :
      (b : Bool) (x y : Turn)
      → (b ≡ true → Returned r got v x)
      → Returned r got v y
      → Returned r got v (if b then x else y)
  Returned-if true x y p q = p refl
  Returned-if false x y p q = q

  Turns-if :
      (b : Bool) (x y : Option Turn)
      → (b ≡ true → Post (Returned r got v) x)
      → (b ≡ false → Post (Returned r got v) y)
      → Post (Returned r got v) (if b then x else y)
  Turns-if true x y p q = p refl
  Turns-if false x y p q = q refl

  parsed-Returned :
      (p : Bool × Bool) (w : Waiting) → (p.0 ≡ false → p.1 ≡ v) → Returned r got v (parsed p w)
  unfolding parsed
  parsed-Returned (true, b) w h = tt
  parsed-Returned (false, b) w h = (h refl, inr refl)

  took-Returned :
      (stale : ℕ) (c : Command) (w : Waiting)
      → w.verified ≡ v
      → recv_to_cmd max_datasize got.socket ≡ some c
      → Returned r got v (took stale c w)
  unfolding took
  took-Returned stale c w same came =
      Returned-if (is_minus_one c.ret) _ _ (λ lost. (same, inl (refl, closed_late came lost)))
        (Returned-if (is_positive c.ret) _ _
          (λ there.
            parsed-Returned (super_msg_parse stale c.cmd w.verified) _
              (λ no. super_msg_parse_refused stale c.cmd w.verified no ∙ same))
          tt)

  received-Returned :
      (stale : ℕ) (w : Waiting)
      → w.verified ≡ v
      → w.socket ≡ got.socket
      → Post (Returned r got v) (received stale (poll_recv got.socket) w)
  unfolding received
  received-Returned stale w same socket =
      Turns-if (is_minus_one (poll_recv got.socket)) _ _
        (λ lost. result (same, inl (refl, closed lost)))
        (λ opened.
          Turns-if (is_positive (poll_recv got.socket)) _ _
            (λ there.
              Post-chain (λ c. some (took stale c w)) (known (recv_to_cmd max_datasize w.socket))
                (λ c came. result (
                  took-Returned stale c w same
                    (sym (ap (recv_to_cmd max_datasize) socket) ∙ came))))
            (λ empty. result tt))

after_recv-Returned :
    (stale : ℕ) (r : InitRound) (got : Received) (w : Waiting)
    → Post (Returned r got w.verified) (after_recv stale r got w)
unfolding after_recv
after_recv-Returned stale r got w =
    Turns-if r got w.verified (is_minus_one got.ret) _ _
      (λ failing.
        Turns-if r got w.verified (is_retry r.errno) _ _ (λ again. result tt)
          (λ for_good. result (refl, inl (refl, failed failing for_good))))
      (λ works.
        Turns-if r got w.verified (not (is_positive got.ret)) _ _
          (λ over. result (refl, inl (refl, peer_closed works (ground arith))))
          (λ came. received-Returned r got w.verified stale _ refl refl))

-- what a round comes to, with what RecvData gave in it
abbrev Turned : InitRound → Waiting → Turn → Type 0
Turned r w t =
    (got : Received) × (recv_data r.hands w.wire w.socket ≡ some got) × Returned r got w.verified t

wait_turn-Turned :
    (stale : ℕ) (r : InitRound) (w : Waiting) → Post (Turned r w) (wait_turn stale r w)
unfolding wait_turn
wait_turn-Turned stale r w =
    Post-chain (λ got. after_recv stale r got w) (known (recv_data r.hands w.wire w.socket))
      (λ got came. with_got got came (after_recv-Returned stale r got w))
  where
    with_got :
        (got : Received) {o : Option Turn}
        → recv_data r.hands w.wire w.socket ≡ some got
        → Post (Returned r got w.verified) o
        → Post (Turned r w) o
    with_got got came no_result = no_result
    with_got got came (result says) = result (got, came, says)

-- The loop ends verified; or unverified, by a return of false, or by one of -1 after a break.
abbrev pub Ended : ℕ → List InitRound → Waiting → Turn → Type 0
Ended stale rounds start (returns z w) =
    (w.verified ≡ false) × (((z ≡ minus_one) × Breaks stale rounds start) ⊎ (z ≡ return_false))
Ended stale rounds start (continues w) = w.verified ≡ true

Ended-later :
    (stale : ℕ) (r : InitRound) (rs : List InitRound) (w u : Waiting) (t : Turn)
    → w.verified ≡ false
    → wait_turn stale r w ≡ some (continues u)
    → Ended stale rs u t
    → Ended stale (r ∷ rs) w t
Ended-later stale r rs w u (continues x) f e says = says
Ended-later stale r rs w u (returns z x) f e (off, inl (is, breaks)) =
    (off, inl (is, later f e breaks))
Ended-later stale r rs w u (returns z x) f e (off, inr is) = (off, inr is)

by_verified :
    {P : Turn → Type 0} (w : Waiting) (next : Option Turn) (b : Bool)
    → (b ≡ true → P (continues w))
    → (b ≡ false → Post P next)
    → Post P (if b then some (continues w) else next)
by_verified w next true y n = result (y refl)
by_verified w next false y n = n refl

returned-stays :
    (stale : ℕ) (rs : List InitRound) (z : ℤ) (w : Waiting)
    → wait_loop stale rs (returns z w) ≡ some (returns z w)
unfolding wait_loop
returned-stays stale [] z w = refl
returned-stays stale (r ∷ rs) z w = refl

Post-onward :
    {P Q : Turn → Type 0} {o : Option Turn} → ((t : Turn) → P t → Q t) → Post P o → Post Q o
Post-onward h no_result = no_result
Post-onward h (result {a = t} p) = result (h t p)

pub wait_loop-Ended :
    (stale : ℕ) (rounds : List InitRound) (w : Waiting)
    → Post (Ended stale rounds w) (wait_loop stale rounds (continues w))
unfolding wait_loop
wait_loop-Ended stale [] w = by_verified w none w.verified (λ y. y) (λ f. no_result)
wait_loop-Ended stale (r ∷ rs) w =
    by_verified w _ w.verified (λ y. y)
      λ f.
        Post-chain (wait_loop stale rs)
          (both (known (wait_turn stale r w)) (wait_turn-Turned stale r w))
          (λ t says. onward (λ u. wait_loop-Ended stale rs u) f t says.0 says.1)
  where
    both : {P Q : Turn → Type 0} {o : Option Turn} → Post P o → Post Q o → Post (λ t. P t × Q t) o
    both no_result q = no_result
    both (result p) q = result (p, Post-some q refl)

    onward :
        ((u : Waiting) → Post (Ended stale rs u) (wait_loop stale rs (continues u)))
        → w.verified ≡ false
        → (t : Turn) → wait_turn stale r w ≡ some t
        → Turned r w t
        → Post (Ended stale (r ∷ rs) w) (wait_loop stale rs t)
    onward ih f (returns z u) e (got, came, (same, inl (is, fatal))) =
        rw (returned-stays stale rs z u) (result (same ∙ f, inl (is, here f came fatal)))
    onward ih f (returns z u) e (got, came, (same, inr is)) =
        rw (returned-stays stale rs z u) (result (same ∙ f, inr is))
    onward ih f (continues u) e turned =
        Post-onward {P = Ended stale rs u} {Q = Ended stale (r ∷ rs) w}
          (λ t says. Ended-later stale r rs w u t f e says) (ih u)

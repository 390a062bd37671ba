-- ===== src/TaskPool/Census.antt =====
-- Where the connections are: no thread of the pool loses or doubles one.
use ugly_ff.Base.{
  ℕ, zero, suc, ◌+◌, ◌≡◌, refl, ap, sym, ◌∙◌, ◌⊎◌, inl, inr, Bool, true, false, Bool-cases,
  Option-cases, List, [], ◌∷◌, ◌++◌, Option, none, some, if◌then◌else◌, ◌==◌, get_elem?, arith,
}
use ugly_ff.Task.{Hooks}
use ugly_ff.TaskPool.{
  Conn, holding, Worker, add, pour, check_queue, counted, Pool, update, advance, reset, or_lost,
  add_recycle, add_sync, add_verify, add_okay, find_okay, has_room, give, settle, start_and_give,
  Found, missing, found, index_or_zero,
}
use ugly_ff.TaskPool.Rounds.{keep, scan, drop_to_recycle}
pub mod Rounds
pub mod Steps

module _ (x : ℕ) where
  abbrev pub here : Conn → ℕ
  here c = if c.ptr == x then 1 else 0

  abbrev pub count : List Conn → ℕ
  count [] = 0
  count (c ∷ cs) = here c + count cs

  abbrev pub held : Worker → ℕ
  held w = count w.queue + count w.tasks

  abbrev pub total : List Worker → ℕ
  total [] = 0
  total (w ∷ ws) = held w + total ws

  abbrev pub one : Option Worker → ℕ
  one none = 0
  one (some w) = held w

  -- how often the pool has the pointer `x`
  abbrev pub census : Pool → ℕ
  census p =
      total p.verify_threads
      + one p.sync_thread
      + total p.okay_threads
      + one p.recycle_thread
      + count p.freed
      + count p.lost

  pub count-append : (cs ds : List Conn) → count (cs ++ ds) ≡ count cs + count ds
  count-append [] ds = omega arith
  count-append (c ∷ cs) ds = omega (arith, count-append cs ds)

  pub total-update :
      (i : ℕ) (w v : Worker) (ws : List Worker)
      → get_elem? ws i ≡ some w
      → total (update i v ws) + held w ≡ total ws + held v
  unfolding update
  total-update i w v [] e = absurd (cc)
  total-update zero w v (u ∷ ws) e = let same : u ≡ w = cc in rw same (omega arith)
  total-update (suc i) w v (u ∷ ws) e = omega (arith, total-update i w v ws e)

  -- what a container that `add` reaches gains
  pub add-held : (c : Conn) (w : Worker) → held (add c w) ≡ held w + here c
  unfolding add
  add-held c w = omega (arith, count-append w.queue (c ∷ []))

  pub count-pour :
      (arrive : Conn → Conn) (cs : List Conn)
      → ((c : Conn) → (arrive c).ptr ≡ c.ptr)
      → count (pour arrive cs) ≡ count cs
  unfolding pour
  count-pour arrive [] k = refl
  count-pour arrive (c ∷ cs) k =
      let same : here (arrive c) ≡ here c = rw (k c) refl in
      omega (arith, count-append (pour arrive cs) (arrive c ∷ []), count-pour arrive cs k, same)

  pub check_queue-held :
      (arrive : Conn → Conn) (w : Worker)
      → ((c : Conn) → (arrive c).ptr ≡ c.ptr)
      → held (check_queue arrive w) ≡ held w
  unfolding check_queue
  check_queue-held arrive w k =
      omega (arith, count-append w.tasks (pour arrive w.queue), count-pour arrive w.queue k)

  pub add_recycle-census :
      (c : Conn) (p : Pool) → census (or_lost c (add_recycle c p)) ≡ here c + census p
  unfolding add_recycle or_lost
  add_recycle-census c p = elim (Option-cases p.recycle_thread) [
    | inl e ↦ rw e (omega arith)
    | inr (w, e) ↦ rw e (omega (arith, add-held c w))
  ]

  pub add_sync-census :
      (h : Hooks) (c : Conn) (p : Pool) → census (or_lost c (add_sync h c p)) ≡ here c + census p
  unfolding add_sync or_lost advance holding
  add_sync-census h c p = elim (Option-cases p.sync_thread) [
    | inl e ↦ rw e (omega arith)
    | inr (w, e) ↦ rw e (omega (arith, add-held (advance h c) w))
  ]

  -- A task that was taken is in the pool; otherwise nothing has changed.
  pub give-census :
      (h : Hooks) (c : Conn) (i : ℕ) (p : Pool)
      → census (give h c i p).1 ≡ (if (give h c i p).0 then here c else 0) + census p
  unfolding give advance holding
  give-census h c i p = elim (Option-cases (get_elem? p.okay_threads i)) [
    | inl e ↦ rw (give, e) (omega arith)
    | inr (w, e) ↦
        rw (give, e)
          (omega (
            arith,
            add-held (advance h c) w,
            total-update i w (add (advance h c) w) p.okay_threads e,
          ))
  ]

  keeps_when_refused : (c : Conn) (p : Pool) → census p ≡ (if false then here c else 0) + census p
  keeps_when_refused c p = omega arith

  start_and_give-census :
      (h : Hooks) (created : Bool) (c : Conn) (n : Option ℕ) (p : Pool)
      → census (start_and_give h created c n p).1
        ≡ (if (start_and_give h created c n p).0 then here c else 0) + census p
  unfolding start_and_give
  start_and_give-census h created c none p = keeps_when_refused c p
  start_and_give-census h true c (some i) p = give-census h c i p
  start_and_give-census h false c (some i) p = keeps_when_refused c p

  settle-census :
      (h : Hooks) (created : Bool) (c : Conn) (f : Found) (p : Pool)
      → census (settle h created c f p).1
        ≡ (if (settle h created c f p).0 then here c else 0) + census p
  unfolding settle
  settle-census h created c missing p = keeps_when_refused c p
  settle-census h created c (found pmin nostart) p =
      elim (Bool-cases (has_room p.okay_threads pmin)) [
        | inl e ↦ rw e (give-census h c (index_or_zero pmin) p)
        | inr e ↦ rw e (start_and_give-census h created c nostart p)
      ]

  pub add_okay-census :
      (h : Hooks) (created : Bool) (c : Conn) (p : Pool)
      → census (add_okay h created c p).1
        ≡ (if (add_okay h created c p).0 then here c else 0) + census p
  unfolding add_okay
  add_okay-census h created c p =
      settle-census h created c (find_okay p.okay_threads p.max_thread_count 0 none) p

  count-keep : (o : Option Conn) (cs : List Conn) → count (keep o cs) ≡ count (keep o []) + count cs
  unfolding keep
  count-keep none cs = omega arith
  count-keep (some c) cs = omega arith

  pub scan-census :
      (visit : Conn → Pool → Option Conn × Pool) (cs : List Conn) (p : Pool)
      → ((c : Conn) (q : Pool)
          → count (keep (visit c q).0 []) + census (visit c q).1 ≡ here c + census q)
      → count (scan visit cs p).0 + census (scan visit cs p).1 ≡ count cs + census p
  unfolding scan
  scan-census visit [] p h = refl
  scan-census visit (c ∷ cs) p h = omega (
    arith,
    h c p,
    count-keep (visit c p).0 (scan visit cs (visit c p).1).0,
    scan-census visit cs (visit c p).1 h,
  )

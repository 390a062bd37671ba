-- ===== src/TaskPool/Placement.antt =====
-- Which state a connection has in which container.
use ugly_ff.Base.{
  ℕ, zero, suc, ◌+◌, ◌%◌, ◌≡◌, refl, ap, sym, ◌∙◌, subst, ◌⊎◌, inl, inr, Bool, true, false,
  Bool-cases, Option-cases, List, [], ◌∷◌, ◌++◌, Option, none, some, if◌then◌else◌, get_elem?, All,
  ℤ,
}
use ugly_ff.Task.{
  State, notuse, verify, synced, okay, recycle, Task, Hooks, get_next_state, reset_state, set_state,
}
use ugly_ff.Task.States.{after, get_next_state-state}
use ugly_ff.TaskPool.{
  Conn, holding, Worker, add, pour, check_queue, counted, Pool, update, advance, reset, or_lost,
  add_recycle, add_sync, add_verify, add_okay, find_okay, has_room, give, settle, start_and_give,
  max_verify_threads, Found, missing, found, index_or_zero,
}
use ugly_ff.TaskPool.Rounds.{keep, scan, drop_to_recycle}
pub mod Visits
pub mod Rounds
pub mod Kept

abbrev pub In : State → List Conn → Type 0
In s cs = All (λ c. c.task.state ≡ s) cs

pub record WorkerIn (s : State) (w : Worker) : Type 0 where
  pub queue : In s w.queue
  pub tasks : In s w.tasks

-- a thread that is there, with tasks in state `s`
abbrev pub Has : State → Option Worker → Type 0
Has s none = ⊥
Has s (some w) = WorkerIn s w

-- Each container's tasks are in its state, and no task is lost.
pub record Sound (p : Pool) : Type 0 where
  pub verifies : All (WorkerIn verify) p.verify_threads
  pub syncs : Has synced p.sync_thread
  pub serves : All (WorkerIn okay) p.okay_threads
  pub recycles : Has recycle p.recycle_thread
  pub frees : In notuse p.freed
  pub loses : p.lost ≡ []

pub In-append : (s : State) (cs ds : List Conn) → In s cs → In s ds → In s (cs ++ ds)
In-append s [] ds h k = k
In-append s (c ∷ cs) ds h k = (h.0, In-append s cs ds h.1 k)

pub In-keep :
    (s : State) (o : Option Conn) (cs : List Conn) → In s (keep o []) → In s cs → In s (keep o cs)
unfolding keep
In-keep s none cs h k = k
In-keep s (some c) cs h k = (h.0, k)

pub In-pour :
    (s : State) (arrive : Conn → Conn) (cs : List Conn)
    → ((c : Conn) → (arrive c).task.state ≡ c.task.state)
    → In s cs
    → In s (pour arrive cs)
unfolding pour
In-pour s arrive [] k h = tt
In-pour s arrive (c ∷ cs) k h =
    In-append s (pour arrive cs) (arrive c ∷ []) (In-pour s arrive cs k h.1) (k c ∙ h.0, tt)

pub check_queue-WorkerIn :
    {s : State} (arrive : Conn → Conn) (w : Worker)
    → ((c : Conn) → (arrive c).task.state ≡ c.task.state)
    → WorkerIn s w
    → WorkerIn s (check_queue arrive w)
unfolding check_queue
check_queue-WorkerIn {s} arrive w k h = record {
  queue = tt;
  tasks = In-append s w.tasks (pour arrive w.queue) h.tasks (In-pour s arrive w.queue k h.queue);
}

pub add-WorkerIn :
    {s : State} (c : Conn) (w : Worker) → c.task.state ≡ s → WorkerIn s w → WorkerIn s (add c w)
unfolding add
add-WorkerIn {s} c w e h = record {
  queue = In-append s w.queue (c ∷ []) h.queue (e, tt);
  tasks = h.tasks;
}

pub All-update :
    {s : State} (i : ℕ) (v : Worker) (ws : List Worker)
    → WorkerIn s v
    → All (WorkerIn s) ws
    → All (WorkerIn s) (update i v ws)
unfolding update
All-update i v [] k h = tt
All-update zero v (w ∷ ws) k h = (k, h.1)
All-update (suc i) v (w ∷ ws) k h = (h.0, All-update i v ws k h.1)

pub All-at :
    {s : State} (i : ℕ) (w : Worker) (ws : List Worker)
    → get_elem? ws i ≡ some w
    → All (WorkerIn s) ws
    → WorkerIn s w
All-at i w [] e h = absurd (cc)
All-at {s} zero w (v ∷ ws) e h = let same : v ≡ w = cc in subst (WorkerIn s) same h.0
All-at (suc i) w (v ∷ ws) e h = All-at i w ws e h.1

pub advance-state : (h : Hooks) (c : Conn) → (advance h c).task.state ≡ after c.task.state
unfolding advance holding
advance-state h c = get_next_state-state h c.task

pub reset-state : (c : Conn) → (reset c).task.state ≡ recycle
unfolding reset holding reset_state set_state
reset-state c = refl

pub add_recycle-Sound :
    (c : Conn) (p : Pool) → c.task.state ≡ recycle → Sound p → Sound (or_lost c (add_recycle c p))
unfolding or_lost add_recycle
add_recycle-Sound c p k h = elim (Option-cases p.recycle_thread) [
  | inl e ↦ absurd (subst (Has recycle) e h.recycles)
  | inr (w, e) ↦
      rw (add_recycle, e)
        (record {
          verifies = h.verifies;
          syncs = h.syncs;
          serves = h.serves;
          recycles = add-WorkerIn c w k (subst (Has recycle) e h.recycles);
          frees = h.frees;
          loses = h.loses;
        })
]

pub add_sync-Sound :
    (g : Hooks) (c : Conn) (p : Pool)
    → c.task.state ≡ verify
    → Sound p
    → Sound (or_lost c (add_sync g c p))
unfolding or_lost add_sync
add_sync-Sound g c p k h = elim (Option-cases p.sync_thread) [
  | inl e ↦ absurd (subst (Has synced) e h.syncs)
  | inr (w, e) ↦
      rw (add_sync, e)
        (record {
          verifies = h.verifies;
          syncs =
              add-WorkerIn (advance g c) w (advance-state g c ∙ ap after k)
                (subst (Has synced) e h.syncs);
          serves = h.serves;
          recycles = h.recycles;
          frees = h.frees;
          loses = h.loses;
        })
]

give-Sound :
    (g : Hooks) (c : Conn) (i : ℕ) (p : Pool)
    → c.task.state ≡ synced
    → Sound p
    → Sound (give g c i p).1
unfolding give
give-Sound g c i p k h = elim (Option-cases (get_elem? p.okay_threads i)) [
  | inl e ↦ rw (give, e) h
  | inr (w, e) ↦
      rw (give, e)
        (record {
          verifies = h.verifies;
          syncs = h.syncs;
          serves =
              All-update i (add (advance g c) w) p.okay_threads
                (add-WorkerIn (advance g c) w (advance-state g c ∙ ap after k)
                  (All-at i w p.okay_threads e h.serves))
                h.serves;
          recycles = h.recycles;
          frees = h.frees;
          loses = h.loses;
        })
]

start_and_give-Sound :
    (g : Hooks) (created : Bool) (c : Conn) (n : Option ℕ) (p : Pool)
    → c.task.state ≡ synced
    → Sound p
    → Sound (start_and_give g created c n p).1
unfolding start_and_give
start_and_give-Sound g created c none p k h = h
start_and_give-Sound g true c (some i) p k h = give-Sound g c i p k h
start_and_give-Sound g false c (some i) p k h = h

settle-Sound :
    (g : Hooks) (created : Bool) (c : Conn) (f : Found) (p : Pool)
    → c.task.state ≡ synced
    → Sound p
    → Sound (settle g created c f p).1
unfolding settle
settle-Sound g created c missing p k h = h
settle-Sound g created c (found pmin nostart) p k h =
    elim (Bool-cases (has_room p.okay_threads pmin)) [
      | inl e ↦ rw e (give-Sound g c (index_or_zero pmin) p k h)
      | inr e ↦ rw e (start_and_give-Sound g created c nostart p k h)
    ]

pub add_okay-Sound :
    (g : Hooks) (created : Bool) (c : Conn) (p : Pool)
    → c.task.state ≡ synced
    → Sound p
    → Sound (add_okay g created c p).1
unfolding add_okay
add_okay-Sound g created c p k h =
    settle-Sound g created c (find_okay p.okay_threads p.max_thread_count 0 none) p k h

pub add_verify-Sound :
    (g : Hooks) (c : Conn) (p : Pool) → c.task.state ≡ notuse → Sound p → Sound (add_verify g c p).1
unfolding add_verify
add_verify-Sound g c p k h =
    elim (Option-cases (get_elem? p.verify_threads (p.hash_code % max_verify_threads))) [
      | inl e ↦
          rw (add_verify, e)
            (record {
              verifies = h.verifies;
              syncs = h.syncs;
              serves = h.serves;
              recycles = h.recycles;
              frees = h.frees;
              loses = h.loses;
            })
      | inr (w, e) ↦
          rw (add_verify, e)
            (record {
              verifies =
                  All-update _ (add (advance g c) w) p.verify_threads
                    (add-WorkerIn (advance g c) w (advance-state g c ∙ ap after k)
                      (All-at _ w p.verify_threads e h.verifies))
                    h.verifies;
              syncs = h.syncs;
              serves = h.serves;
              recycles = h.recycles;
              frees = h.frees;
              loses = h.loses;
            })
    ]

pub scan-Sound :
    (s : State) (visit : Conn → Pool → Option Conn × Pool) (cs : List Conn) (p : Pool)
    → ((c : Conn) (q : Pool)
        → c.task.state ≡ s
        → Sound q
        → Sound (visit c q).1 × In s (keep (visit c q).0 []))
    → In s cs
    → Sound p
    → Sound (scan visit cs p).1 × In s (scan visit cs p).0
unfolding scan
scan-Sound s visit [] p h i k = (k, tt)
scan-Sound s visit (c ∷ cs) p h i k =
    let (k₁, i₁) = h c p i.0 k in
    let (k₂, i₂) = scan-Sound s visit cs (visit c p).1 h i.1 k₁ in
    (k₂, In-keep s (visit c p).0 (scan visit cs (visit c p).1).0 i₁ i₂)

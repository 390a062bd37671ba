-- ===== src/TaskPool/Placement/Kept.antt =====
-- The placement of connections over any history of the pool.
use ugly_ff.Base.{
  ℕ, zero, suc, ◌+◌, ◌-◌, ◌/◌, ◌≡◌, refl, List, [], ◌∷◌, ◌++◌, All, Bool, true, false, inl, inr,
  Option-cases, get_elem?,
}
use ugly_ff.Task.{State, notuse, verify, okay}
use ugly_ff.TaskPool.{
  Conn, Worker, new_worker, Pool, new_pool, workers, init, conn_per_thread, okay_alive,
}
use ugly_ff.TaskPool.Rounds.{Virtuals}
use ugly_ff.TaskPool.Lives.{
  Step, okay_starts, okay_stops, verify_goes, verify_ends, sync_goes, sync_ends, okay_goes,
  okay_ends, recycle_goes, recycle_ends, History, start, arrives, goes_on,
}
use ugly_ff.TaskPool.Placement.{WorkerIn, Sound, add_verify-Sound, All-at, All-update}
use ugly_ff.TaskPool.Placement.Visits.{Steady}
use ugly_ff.TaskPool.Placement.Rounds.{
  verify_round-Sound, verify_final-Sound, okay_round-Sound, okay_final-Sound, sync_round-Sound,
  sync_final-Sound, recycle_round-Sound, recycle_final-Sound,
}

okay_alive-Sound : (runs : Bool) (i : ℕ) (p : Pool) → Sound p → Sound (okay_alive runs i p)
unfolding okay_alive
okay_alive-Sound runs i p h = elim (Option-cases (get_elem? p.okay_threads i)) [
  | inl e ↦ rw (okay_alive, e) h
  | inr (w, e) ↦
      let here = All-at i w p.okay_threads e h.serves in
      rw (okay_alive, e)
        (record {
          verifies = h.verifies;
          syncs = h.syncs;
          serves =
              All-update i (record w { alive = runs }) p.okay_threads
                (record { queue = here.queue; tasks = here.tasks }) h.serves;
          recycles = h.recycles;
          frees = h.frees;
          loses = h.loses;
        })
]

Step-Sound : {v : Virtuals} {p q : Pool} → Steady v → Step v p q → Sound p → Sound q
Step-Sound {v} {p} t (verify_goes now i) h = verify_round-Sound v t now i p h
Step-Sound {v} {p} t (verify_ends i) h = verify_final-Sound v t i p h
Step-Sound {v} {p} t (sync_goes created) h = sync_round-Sound v t created p h
Step-Sound {v} {p} t sync_ends h = sync_final-Sound v t p h
Step-Sound {v} {p} t (okay_starts i) h = okay_alive-Sound true i p h
Step-Sound {v} {p} t (okay_stops i) h = okay_alive-Sound false i p h
Step-Sound {v} {p} t (okay_goes now i) h = okay_round-Sound v t now i p h
Step-Sound {v} {p} t (okay_ends i) h = okay_final-Sound v t i p h
Step-Sound {v} {p} t recycle_goes h = recycle_round-Sound v t p h
Step-Sound {v} {p} t recycle_ends h = recycle_final-Sound v t p h

-- a history in which new connections come in state `notuse`, and the virtual functions are steady
unfoldable pub Tame : {p : Pool} {cs : List Conn} {q : Pool} → History p cs q → Type 0
Tame start = Unit {0}
Tame (arrives v c h) = (c.task.state ≡ notuse) × Tame h
Tame (goes_on v h s) = Steady v × Tame h

workers-In : (s : State) (n : ℕ) → All (WorkerIn s) (workers n)
unfolding workers new_worker
workers-In s zero = tt
workers-In s (suc n) = snoc (workers n) (workers-In s n)
  where
    snoc : (ws : List Worker) → All (WorkerIn s) ws → All (WorkerIn s) (ws ++ (new_worker ∷ []))
    snoc [] h = (record { queue = tt; tasks = tt }, tt)
    snoc (w ∷ ws) h = (h.0, snoc ws h.1)

init-Sound : (n : ℕ) → Sound (init (new_pool n))
unfolding init new_pool new_worker
init-Sound n = record {
  verifies = workers-In verify 4;
  syncs = record { queue = tt; tasks = tt };
  serves = workers-In okay ((n + conn_per_thread - 1) / conn_per_thread);
  recycles = record { queue = tt; tasks = tt };
  frees = tt;
  loses = refl;
}

History-Sound :
    {p : Pool} {cs : List Conn} {q : Pool} (h : History p cs q) → Tame h → Sound p → Sound q
unfolding Tame
History-Sound start t s = s
History-Sound (arrives {cs} {q} v c h) t s =
    add_verify-Sound v.hooks c q t.0 (History-Sound h t.1 s)
History-Sound (goes_on v h g) t s = Step-Sound t.0 g (History-Sound h t.1 s)

-- Over any history of an initialised pool (new connections come in state `notuse`, and the virtual
-- functions and the other threads leave the state alone), a connection is in state `verify` where a
-- verify thread has it, `synced` at the sync thread, `okay` at an okay thread, `recycle` at the
-- recycle thread and `notuse` once it is freed; and no connection is lost.
pub init-History-Sound :
    (n : ℕ) {cs : List Conn} {q : Pool} (h : History (init (new_pool n)) cs q) → Tame h → Sound q
init-History-Sound n h t = History-Sound h t (init-Sound n)

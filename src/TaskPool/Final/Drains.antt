-- ===== src/TaskPool/Final/Drains.antt =====
-- include/zTCPTaskPool.cpp: what the loops at the end of the pool's threads do with the threads' tasks.
use ugly_ff.Base.{
  ℕ, zero, suc, ◌+◌, ◌≡◌, refl, ap, ◌∙◌, inl, inr, Option-cases, List, [], ◌∷◌, Option, none, some,
  length, get_elem?, arith,
}
use ugly_ff.TaskPool.{
  Conn, Worker, Pool, update, counted, add, reset, advance, or_lost, add_recycle,
}
use ugly_ff.TaskPool.Rounds.{
  Virtuals, keep, scan, reset_visit, advance_visit, drop_to_recycle, verify_tasks, okay_tasks,
  verify_final, okay_final,
}
use ugly_ff.TaskPool.Census.{count}
use ugly_ff.TaskPool.Final.{ends_from_back}

-- A visit that hands the task to the recycle thread, and does nothing else.
abbrev pub HandsOver : (Conn → Pool → Option Conn × Pool) → Type 0
HandsOver visit =
    (c : Conn) (p : Pool) (w : Worker)
    → p.recycle_thread ≡ some w
    → (u : Worker) × (visit c p ≡ (none, record p { recycle_thread = some u }))

add_recycle-some :
    (c : Conn) (p : Pool) (w : Worker)
    → p.recycle_thread ≡ some w
    → or_lost c (add_recycle c p) ≡ record p { recycle_thread = some (add c w) }
unfolding or_lost add_recycle
add_recycle-some c p w e = rw (add_recycle, e) refl

pub reset_visit-HandsOver : (v : Virtuals) → HandsOver (reset_visit v)
unfolding reset_visit drop_to_recycle
reset_visit-HandsOver v c p w e =
    (add (reset c) w, ap (λ q. (none, q)) (add_recycle-some (reset c) p w e))

pub advance_visit-HandsOver : (v : Virtuals) → HandsOver (advance_visit v)
unfolding advance_visit
advance_visit-HandsOver v c p w e =
    (add (advance v.hooks c) w, ap (λ q. (none, q)) (add_recycle-some (advance v.hooks c) p w e))

-- Such visits leave no task.
pub scan-drained :
    (visit : Conn → Pool → Option Conn × Pool) (cs : List Conn) (p : Pool) (w : Worker)
    → HandsOver visit
    → p.recycle_thread ≡ some w
    → (u : Worker) × (scan visit cs p ≡ ([], record p { recycle_thread = some u }))
unfolding scan keep
scan-drained visit [] p w h e = (w, ap (λ o. ([], record p { recycle_thread = o })) e)
scan-drained visit (c ∷ cs) p w h e =
    let (u, here) = h c p w e in
    let (t, there) = scan-drained visit cs (record p { recycle_thread = some u }) u h refl in
    (t, rw (here, there) refl)

module _ (x : ℕ) where
  -- the tasks that wait in the threads' queues, and the tasks of the threads from an index on
  abbrev pub queued : List Worker → ℕ
  queued [] = 0
  queued (w ∷ ws) = count x w.queue + queued ws

  abbrev pub tasked : ℕ → List Worker → ℕ
  tasked i [] = 0
  tasked zero (w ∷ ws) = count x w.tasks + tasked zero ws
  tasked (suc i) (w ∷ ws) = tasked i ws

  queued-update :
      (i : ℕ) (w : Worker) (ws : List Worker)
      → get_elem? ws i ≡ some w
      → queued (update i (counted [] w) ws) ≡ queued ws
  unfolding update counted
  queued-update i w [] e = absurd (cc)
  queued-update zero w (u ∷ ws) e = let same : u ≡ w = cc in rw same refl
  queued-update (suc i) w (u ∷ ws) e = omega (arith, queued-update i w ws e)

  tasked-update :
      (i : ℕ) (w : Worker) (ws : List Worker)
      → tasked i (update i (counted [] w) ws) ≡ tasked (suc i) ws
  unfolding update counted
  tasked-update i w [] = refl
  tasked-update zero w (u ∷ ws) = omega arith
  tasked-update (suc i) w (u ∷ ws) = tasked-update i w ws

  tasked_over : (i : ℕ) (ws : List Worker) → get_elem? ws i ≡ none → tasked i ws ≡ tasked (suc i) ws
  tasked_over i [] e = refl
  tasked_over zero (u ∷ ws) e = absurd (cc)
  tasked_over (suc i) (u ∷ ws) e = tasked_over i ws e

  pub tasked-length : (ws : List Worker) → tasked (length ws) ws ≡ 0
  tasked-length [] = refl
  tasked-length (w ∷ ws) = tasked-length ws

  -- From `p` to `q` the threads `mine` lost their tasks from index `i` up to `j`, to the recycle
  -- thread; what waits in a queue still waits, and nothing was lost.
  pub record Emptied (mine : Pool → List Worker) (i j : ℕ) (p q : Pool) : Type 0 where
    pub tasks : tasked i (mine q) ≡ tasked j (mine p)
    pub verify_queues : queued q.verify_threads ≡ queued p.verify_threads
    pub okay_queues : queued q.okay_threads ≡ queued p.okay_threads
    pub same_sync : q.sync_thread ≡ p.sync_thread
    pub same_lost : q.lost ≡ p.lost
    pub recycler : Worker
    pub recycles : q.recycle_thread ≡ some recycler

  pub ends-Emptied :
      (mine : Pool → List Worker) (end_of : ℕ → Pool → Pool)
      → ((i : ℕ) (p : Pool) (w : Worker)
          → p.recycle_thread ≡ some w
          → Emptied mine i (suc i) p (end_of i p))
      → (n : ℕ) (p : Pool) (w : Worker) → p.recycle_thread ≡ some w
      → Emptied mine 0 n p (ends_from_back end_of n p)
  unfolding ends_from_back
  ends-Emptied mine end_of h zero p w e = record {
    tasks = refl;
    verify_queues = refl;
    okay_queues = refl;
    same_sync = refl;
    same_lost = refl;
    recycler = w;
    recycles = e;
  }
  ends-Emptied mine end_of h (suc n) p w e =
      let one = h n p w e in
      let rest = ends-Emptied mine end_of h n (end_of n p) one.recycler one.recycles in
      record {
        tasks = rest.tasks ∙ one.tasks;
        verify_queues = rest.verify_queues ∙ one.verify_queues;
        okay_queues = rest.okay_queues ∙ one.okay_queues;
        same_sync = rest.same_sync ∙ one.same_sync;
        same_lost = rest.same_lost ∙ one.same_lost;
        recycler = rest.recycler;
        recycles = rest.recycles;
      }

  pub verify_final-Emptied :
      (v : Virtuals) (i : ℕ) (p : Pool) (w : Worker)
      → p.recycle_thread ≡ some w
      → Emptied (λ q. q.verify_threads) i (suc i) p (verify_final v i p)
  unfolding verify_final verify_tasks
  verify_final-Emptied v i p r e = elim (Option-cases (get_elem? p.verify_threads i)) [
    | inl n ↦
        rw (verify_final, n)
          (record {
            tasks = tasked_over i p.verify_threads n;
            verify_queues = refl;
            okay_queues = refl;
            same_sync = refl;
            same_lost = refl;
            recycler = r;
            recycles = e;
          })
    | inr (w, f) ↦
        let (u, drained) = scan-drained (reset_visit v) w.tasks p r (reset_visit-HandsOver v) e in
        rw (verify_final, f, drained)
          (record {
            tasks = tasked-update i w p.verify_threads;
            verify_queues = queued-update i w p.verify_threads f;
            okay_queues = refl;
            same_sync = refl;
            same_lost = refl;
            recycler = u;
            recycles = refl;
          })
  ]

  pub okay_final-Emptied :
      (v : Virtuals) (i : ℕ) (p : Pool) (w : Worker)
      → p.recycle_thread ≡ some w
      → Emptied (λ q. q.okay_threads) i (suc i) p (okay_final v i p)
  unfolding okay_final okay_tasks
  okay_final-Emptied v i p r e = elim (Option-cases (get_elem? p.okay_threads i)) [
    | inl n ↦
        rw (okay_final, n)
          (record {
            tasks = tasked_over i p.okay_threads n;
            verify_queues = refl;
            okay_queues = refl;
            same_sync = refl;
            same_lost = refl;
            recycler = r;
            recycles = e;
          })
    | inr (w, f) ↦
        let (u, drained) =
          scan-drained (advance_visit v) w.tasks p r (advance_visit-HandsOver v) e in
        rw (okay_final, f, drained)
          (record {
            tasks = tasked-update i w p.okay_threads;
            verify_queues = refl;
            okay_queues = queued-update i w p.okay_threads f;
            same_sync = refl;
            same_lost = refl;
            recycler = u;
            recycles = refl;
          })
  ]

-- ===== src/TaskPool/Final/Losses.antt =====
-- include/zTCPTaskPool.cpp: which tasks zTCPTaskPool::final loses.
use ugly_ff.Base.{
  ℕ, ◌+◌, ◌≡◌, refl, ap, ◌∙◌, inl, inr, Option-cases, List, [], ◌∷◌, ◌++◌, Option, none, some,
  length, arith,
}
use ugly_ff.TaskPool.{Conn, Worker, Pool, check_queue}
use ugly_ff.TaskPool.Rounds.{
  Virtuals, Answer, success, wait, failure, keep, scan, reset_visit, recycle_visit, recycled,
  free_visit, verify_final, sync_final, okay_final, recycle_round, recycle_final,
}
use ugly_ff.TaskPool.Census.{count, count-append, census}
use ugly_ff.TaskPool.Census.Steps.{recycle_round-census}
use ugly_ff.TaskPool.Final.{
  left_in, left_in_one, join_verify, join_sync, join_okay, join_recycle, pool_final,
  pool_final-census,
}
use ugly_ff.TaskPool.Final.Drains.{
  queued, tasked, tasked-length, ends-Emptied, verify_final-Emptied, okay_final-Emptied,
  scan-drained, reset_visit-HandsOver,
}

-- A visit of the recycle thread changes at most what is freed.
abbrev Frees : (Conn → Pool → Option Conn × Pool) → Type 0
Frees visit = (c : Conn) (p : Pool) → (fs : List Conn) × ((visit c p).1 ≡ record p { freed = fs })

scan-Frees :
    (visit : Conn → Pool → Option Conn × Pool) (cs : List Conn) (p : Pool)
    → Frees visit
    → (fs : List Conn) × ((scan visit cs p).1 ≡ record p { freed = fs })
unfolding scan
scan-Frees visit [] p h = (p.freed, refl)
scan-Frees visit (c ∷ cs) p h =
    let (fs, here) = h c p in
    let (gs, there) = scan-Frees visit cs (record p { freed = fs }) h in
    (gs, ap (λ q. (scan visit cs q).1) here ∙ there)

recycled-Frees :
    (v : Virtuals) (a : Answer) (c : Conn) (p : Pool)
    → (fs : List Conn) × ((recycled v a c p).1 ≡ record p { freed = fs })
unfolding recycled
recycled-Frees v success c p = (_, refl)
recycled-Frees v wait c p = (p.freed, refl)
recycled-Frees v failure c p = (p.freed, refl)

recycle_visit-Frees : (v : Virtuals) → Frees (recycle_visit v)
unfolding recycle_visit
recycle_visit-Frees v c p = recycled-Frees v (v.recycle_conn c).0 _ p

free_visit-Frees : (v : Virtuals) → Frees (free_visit v)
unfolding free_visit
free_visit-Frees v c p = recycled-Frees v success c p

scan-freed : (v : Virtuals) (cs : List Conn) (p : Pool) → (scan (free_visit v) cs p).0 ≡ []
unfolding scan free_visit recycled keep
scan-freed v [] p = refl
scan-freed v (c ∷ cs) p = scan-freed v cs _

-- `q` is `p` but for the recycle thread and what is freed; the recycle thread's queue is empty.
record Recycled (p q : Pool) : Type 0 where
  same_sync : q.sync_thread ≡ p.sync_thread
  same_okay : q.okay_threads ≡ p.okay_threads
  same_verify : q.verify_threads ≡ p.verify_threads
  same_lost : q.lost ≡ p.lost
  recycler : Worker
  recycles : q.recycle_thread ≡ some recycler
  nothing_waits : recycler.queue ≡ []

recycle_round-Recycled :
    (v : Virtuals) (p : Pool) (w : Worker)
    → p.recycle_thread ≡ some w
    → Recycled p (recycle_round v p)
unfolding recycle_round check_queue
recycle_round-Recycled v p w e =
    let (fs, freeing) =
      scan-Frees (recycle_visit v) (check_queue (λ c. c) w).tasks p (recycle_visit-Frees v) in
    rw (recycle_round, e)
      (record {
        same_sync = ap (λ (q : Pool). q.sync_thread) freeing;
        same_okay = ap (λ (q : Pool). q.okay_threads) freeing;
        same_verify = ap (λ (q : Pool). q.verify_threads) freeing;
        same_lost = ap (λ (q : Pool). q.lost) freeing;
        recycler = _;
        recycles = refl;
        nothing_waits = refl;
      })

-- the tasks that wait in the queue of a thread, if it is there
abbrev pub queued_in : ℕ → Option Worker → ℕ
queued_in x none = 0
queued_in x (some w) = count x w.queue

module _ (x : ℕ) (v : Virtuals) where
  left_in-split : (ws : List Worker) → count x (left_in ws) ≡ queued x ws + tasked x 0 ws
  unfolding left_in
  left_in-split [] = refl
  left_in-split (w ∷ ws) = omega (
    arith,
    count-append x (w.queue ++ w.tasks) (left_in ws),
    count-append x w.queue w.tasks,
    left_in-split ws,
  )

  -- what one of the joins of final comes to
  record Joins (p q : Pool) (waited : ℕ) : Type 0 where
    okay_queues : queued x q.okay_threads ≡ queued x p.okay_threads
    lost : count x q.lost ≡ waited + count x p.lost
    recycler : Worker
    recycles : q.recycle_thread ≡ some recycler

  lost_with :
      (ws : List Worker) (cs : List Conn)
      → tasked x 0 ws ≡ 0
      → count x (left_in ws ++ cs) ≡ queued x ws + count x cs
  lost_with ws cs e = omega (arith, count-append x (left_in ws) cs, left_in-split ws, e)

  join_verify-Joins :
      (p : Pool) (w : Worker)
      → p.recycle_thread ≡ some w
      → Joins p (join_verify v p) (queued x p.verify_threads)
        × ((join_verify v p).sync_thread ≡ p.sync_thread)
  unfolding join_verify
  join_verify-Joins p w e =
      let d =
        ends-Emptied x (λ q. q.verify_threads) (verify_final v)
          (λ i q u f. verify_final-Emptied x v i q u f) (length p.verify_threads) p w e in
      (
        record {
          okay_queues = d.okay_queues;
          lost =
              lost_with _ _ (d.tasks ∙ tasked-length x p.verify_threads)
              ∙ omega (arith, d.verify_queues, ap (count x) d.same_lost);
          recycler = d.recycler;
          recycles = d.recycles;
        },
        d.same_sync,
      )

  join_okay-Joins :
      (p : Pool) (w : Worker)
      → p.recycle_thread ≡ some w
      → (count x (join_okay v p).lost ≡ queued x p.okay_threads + count x p.lost)
        × ((u : Worker) × ((join_okay v p).recycle_thread ≡ some u))
  unfolding join_okay
  join_okay-Joins p w e =
      let d =
        ends-Emptied x (λ q. q.okay_threads) (okay_final v)
          (λ i q u f. okay_final-Emptied x v i q u f) (length p.okay_threads) p w e in
      (
        lost_with _ _ (d.tasks ∙ tasked-length x p.okay_threads)
            ∙ omega (arith, d.okay_queues, ap (count x) d.same_lost),
        (d.recycler, d.recycles),
      )

  join_sync-Joins :
      (p : Pool) (w : Worker)
      → p.recycle_thread ≡ some w
      → Joins p (join_sync v p) (queued_in x p.sync_thread)
  unfolding join_sync sync_final left_in_one
  join_sync-Joins p r e = elim (Option-cases p.sync_thread) [
    | inl n ↦
        rw (sync_final, n)
          (record {
            okay_queues = refl;
            lost = ap (λ o. count x (left_in_one o ++ p.lost)) n ∙ omega arith;
            recycler = r;
            recycles = e;
          })
    | inr (w, f) ↦
        let (u, drained) = scan-drained (reset_visit v) w.tasks p r (reset_visit-HandsOver v) e in
        rw (sync_final, f, drained)
          (record {
            okay_queues = refl;
            lost = omega (arith, count-append x (w.queue ++ []) p.lost, count-append x w.queue []);
            recycler = u;
            recycles = refl;
          })
  ]

  -- The recycle thread frees its tasks, and loses what waits in its queue.
  join_recycle-lost :
      (p : Pool) (w : Worker)
      → p.recycle_thread ≡ some w
      → w.queue ≡ []
      → count x (join_recycle v p).lost ≡ count x p.lost
  unfolding join_recycle recycle_final left_in_one
  join_recycle-lost p w e empty =
      let (fs, freeing) = scan-Frees (free_visit v) w.tasks p (free_visit-Frees v) in
      rw (recycle_final, e, scan-freed v w.tasks p, freeing) (rw empty refl)

-- Where there is a recycle thread, which makes a round before each of the four joins of final (and
-- no other thread makes one any more, and no connection comes), then whatever recycleConn answers,
-- final loses exactly the tasks that wait in the queue of a verify thread, of the sync thread or of
-- an okay thread, each as often as it stands there, besides those that were lost already; and a task
-- is as often in the pool, freed or lost as before.
pub pool_final-lost :
    (x : ℕ) (v : Virtuals) (p : Pool) {w : Worker}
    → p.recycle_thread ≡ some w
    → (count x (pool_final v (recycle_round v) p).lost
        ≡ count x p.lost
          + queued x p.verify_threads
          + queued_in x p.sync_thread
          + queued x p.okay_threads)
      × (census x (pool_final v (recycle_round v) p) ≡ census x p)
unfolding pool_final
pool_final-lost x v p {w} e =
    let r₁ = recycle_round-Recycled v p w e in
    let p₁ = recycle_round v p in
    let (j₁, s₁) = join_verify-Joins x v p₁ r₁.recycler r₁.recycles in
    let q₁ = join_verify v p₁ in
    let r₂ = recycle_round-Recycled v q₁ j₁.recycler j₁.recycles in
    let p₂ = recycle_round v q₁ in
    let j₂ = join_sync-Joins x v p₂ r₂.recycler r₂.recycles in
    let q₂ = join_sync v p₂ in
    let r₃ = recycle_round-Recycled v q₂ j₂.recycler j₂.recycles in
    let p₃ = recycle_round v q₂ in
    let (l₃, (u, e₃)) = join_okay-Joins x v p₃ r₃.recycler r₃.recycles in
    let q₃ = join_okay v p₃ in
    let r₄ = recycle_round-Recycled v q₃ u e₃ in
    (
      omega (
        arith,
        join_recycle-lost x v (recycle_round v q₃) r₄.recycler r₄.recycles r₄.nothing_waits,
        ap (count x) r₄.same_lost,
        l₃,
        ap (queued x) r₃.same_okay,
        ap (count x) r₃.same_lost,
        j₂.okay_queues,
        j₂.lost,
        ap (queued x) r₂.same_okay,
        ap (queued_in x) r₂.same_sync,
        ap (count x) r₂.same_lost,
        j₁.okay_queues,
        j₁.lost,
        ap (queued_in x) s₁,
        ap (queued x) r₁.same_okay,
        ap (queued_in x) r₁.same_sync,
        ap (queued x) r₁.same_verify,
        ap (count x) r₁.same_lost,
      ),
      pool_final-census x v (recycle_round v) p (λ q. recycle_round-census x v q),
    )

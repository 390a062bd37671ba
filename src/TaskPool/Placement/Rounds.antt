-- ===== src/TaskPool/Placement/Rounds.antt =====
-- The placement of connections over the rounds of the threads.
use ugly_ff.Base.{ℕ, refl, subst, inl, inr, Bool, Option-cases, List, some, get_elem?}
use ugly_ff.Time.{RTime}
use ugly_ff.Task.{verify, synced, okay, recycle}
use ugly_ff.TaskPool.{Conn, Worker, check_queue, counted, Pool}
use ugly_ff.TaskPool.Rounds.{
  Virtuals, scan, verify_visit, timeout_visit, sync_visit, okay_visit, greet, recycle_visit,
  reset_visit, advance_visit, free_visit, verify_tasks, okay_tasks, verify_round, verify_final,
  sync_round, sync_final, okay_round, okay_final, recycle_round, recycle_final,
}
use ugly_ff.TaskPool.Placement.{
  In, Has, Sound, check_queue-WorkerIn, All-update, All-at, scan-Sound,
}
use ugly_ff.TaskPool.Placement.Visits.{
  Steady, reset_visit-Leaves, verify_visit-Leaves, timeout_visit-Leaves, sync_visit-Leaves,
  advance_visit-Leaves, okay_visit-Leaves, serve_all-In, greet-state, recycle_visit-Leaves,
  free_visit-Leaves,
}

module _ (v : Virtuals) (t : Steady v) where
  verify_tasks-Sound :
      (i : ℕ) (w : Worker) (tasks : List Conn) (p : Pool)
      → In verify w.queue
      → In verify tasks
      → Sound p
      → Sound (verify_tasks v i w tasks p)
  unfolding verify_tasks counted
  verify_tasks-Sound i w tasks p q k h = record {
    verifies =
        All-update i (counted tasks w) p.verify_threads (record { queue = q; tasks = k })
          h.verifies;
    syncs = h.syncs;
    serves = h.serves;
    recycles = h.recycles;
    frees = h.frees;
    loses = h.loses;
  }

  okay_tasks-Sound :
      (i : ℕ) (w : Worker) (tasks : List Conn) (p : Pool)
      → In okay w.queue
      → In okay tasks
      → Sound p
      → Sound (okay_tasks v i w tasks p)
  unfolding okay_tasks counted
  okay_tasks-Sound i w tasks p q k h = record {
    verifies = h.verifies;
    syncs = h.syncs;
    serves =
        All-update i (counted tasks w) p.okay_threads (record { queue = q; tasks = k }) h.serves;
    recycles = h.recycles;
    frees = h.frees;
    loses = h.loses;
  }

  pub verify_round-Sound :
      (now : RTime) (i : ℕ) (p : Pool) → Sound p → Sound (verify_round v now i p)
  unfolding verify_round
  verify_round-Sound now i p h = elim (Option-cases (get_elem? p.verify_threads i)) [
    | inl e ↦ rw (verify_round, e) h
    | inr (u, e) ↦
        let w = check_queue (λ c. c) u in
        let here =
          check_queue-WorkerIn (λ c. c) u (λ c. refl) (All-at i u p.verify_threads e h.verifies) in
        let (h₁, k₁) =
          scan-Sound verify (timeout_visit v now) w.tasks p (timeout_visit-Leaves v t now)
            here.tasks h in
        let young = scan (timeout_visit v now) w.tasks p in
        let (h₂, k₂) =
          scan-Sound verify (verify_visit v) young.0 young.1 (verify_visit-Leaves v t) k₁ h₁ in
        rw (verify_round, e) (verify_tasks-Sound i w _ _ here.queue k₂ h₂)
  ]

  pub verify_final-Sound : (i : ℕ) (p : Pool) → Sound p → Sound (verify_final v i p)
  unfolding verify_final
  verify_final-Sound i p h = elim (Option-cases (get_elem? p.verify_threads i)) [
    | inl e ↦ rw (verify_final, e) h
    | inr (u, e) ↦
        let here = All-at i u p.verify_threads e h.verifies in
        let (h₁, k₁) =
          scan-Sound verify (reset_visit v) u.tasks p (λ c q _. reset_visit-Leaves v verify c q)
            here.tasks h in
        rw (verify_final, e) (verify_tasks-Sound i u _ _ here.queue k₁ h₁)
  ]

  pub okay_round-Sound : (now : RTime) (i : ℕ) (p : Pool) → Sound p → Sound (okay_round v now i p)
  unfolding okay_round
  okay_round-Sound now i p h = elim (Option-cases (get_elem? p.okay_threads i)) [
    | inl e ↦ rw (okay_round, e) h
    | inr (u, e) ↦
        let w = check_queue (greet v) u in
        let here =
          check_queue-WorkerIn (greet v) u (greet-state v t)
            (All-at i u p.okay_threads e h.serves) in
        let (h₁, k₁) =
          scan-Sound okay (okay_visit v now) w.tasks p (okay_visit-Leaves v t now) here.tasks h in
        rw (okay_round, e) (okay_tasks-Sound i w _ _ here.queue (serve_all-In v t okay _ k₁) h₁)
  ]

  pub okay_final-Sound : (i : ℕ) (p : Pool) → Sound p → Sound (okay_final v i p)
  unfolding okay_final
  okay_final-Sound i p h = elim (Option-cases (get_elem? p.okay_threads i)) [
    | inl e ↦ rw (okay_final, e) h
    | inr (u, e) ↦
        let here = All-at i u p.okay_threads e h.serves in
        let (h₁, k₁) =
          scan-Sound okay (advance_visit v) u.tasks p (advance_visit-Leaves v t) here.tasks h in
        rw (okay_final, e) (okay_tasks-Sound i u _ _ here.queue k₁ h₁)
  ]

  sync_tasks-Sound :
      (w : Worker) (tasks : List Conn) (p : Pool)
      → In synced w.queue
      → In synced tasks
      → Sound p
      → Sound (record p { sync_thread = some (record w { tasks = tasks }) })
  sync_tasks-Sound w tasks p q k h = record {
    verifies = h.verifies;
    syncs = record { queue = q; tasks = k };
    serves = h.serves;
    recycles = h.recycles;
    frees = h.frees;
    loses = h.loses;
  }

  recycle_tasks-Sound :
      (w : Worker) (tasks : List Conn) (p : Pool)
      → In recycle w.queue
      → In recycle tasks
      → Sound p
      → Sound (record p { recycle_thread = some (record w { tasks = tasks }) })
  recycle_tasks-Sound w tasks p q k h = record {
    verifies = h.verifies;
    syncs = h.syncs;
    serves = h.serves;
    recycles = record { queue = q; tasks = k };
    frees = h.frees;
    loses = h.loses;
  }

  pub sync_round-Sound : (created : Bool) (p : Pool) → Sound p → Sound (sync_round v created p)
  unfolding sync_round
  sync_round-Sound created p h = elim (Option-cases p.sync_thread) [
    | inl e ↦ absurd (subst (Has synced) e h.syncs)
    | inr (u, e) ↦
        let w = check_queue (λ c. c) u in
        let here = check_queue-WorkerIn (λ c. c) u (λ c. refl) (subst (Has synced) e h.syncs) in
        let (h₁, k₁) =
          scan-Sound synced (sync_visit v created) w.tasks p (sync_visit-Leaves v t created)
            here.tasks h in
        rw (sync_round, e) (sync_tasks-Sound w _ _ here.queue k₁ h₁)
  ]

  pub sync_final-Sound : (p : Pool) → Sound p → Sound (sync_final v p)
  unfolding sync_final
  sync_final-Sound p h = elim (Option-cases p.sync_thread) [
    | inl e ↦ absurd (subst (Has synced) e h.syncs)
    | inr (u, e) ↦
        let here = subst (Has synced) e h.syncs in
        let (h₁, k₁) =
          scan-Sound synced (reset_visit v) u.tasks p (λ c q _. reset_visit-Leaves v synced c q)
            here.tasks h in
        rw (sync_final, e) (sync_tasks-Sound u _ _ here.queue k₁ h₁)
  ]

  pub recycle_round-Sound : (p : Pool) → Sound p → Sound (recycle_round v p)
  unfolding recycle_round
  recycle_round-Sound p h = elim (Option-cases p.recycle_thread) [
    | inl e ↦ absurd (subst (Has recycle) e h.recycles)
    | inr (u, e) ↦
        let w = check_queue (λ c. c) u in
        let here = check_queue-WorkerIn (λ c. c) u (λ c. refl) (subst (Has recycle) e h.recycles) in
        let (h₁, k₁) =
          scan-Sound recycle (recycle_visit v) w.tasks p (recycle_visit-Leaves v t) here.tasks h in
        rw (recycle_round, e) (recycle_tasks-Sound w _ _ here.queue k₁ h₁)
  ]

  pub recycle_final-Sound : (p : Pool) → Sound p → Sound (recycle_final v p)
  unfolding recycle_final
  recycle_final-Sound p h = elim (Option-cases p.recycle_thread) [
    | inl e ↦ absurd (subst (Has recycle) e h.recycles)
    | inr (u, e) ↦
        let here = subst (Has recycle) e h.recycles in
        let (h₁, k₁) =
          scan-Sound recycle (free_visit v) u.tasks p (free_visit-Leaves v t) here.tasks h in
        rw (recycle_final, e) (recycle_tasks-Sound u _ _ here.queue k₁ h₁)
  ]

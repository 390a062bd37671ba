-- ===== src/TaskPool/Census/Steps.antt =====
-- No round of a thread, and no end of one, changes how often the pool has a connection.
use ugly_ff.Base.{
  ℕ, ◌+◌, ◌%◌, ◌≡◌, refl, ap, ◌∙◌, inl, inr, Bool, Option-cases, List, [], ◌∷◌, Option, some,
  if◌then◌else◌, get_elem?, arith,
}
use ugly_ff.Time.{RTime}
use ugly_ff.TaskPool.{
  Conn, holding, Worker, add, check_queue, counted, Pool, advance, or_lost, add_recycle, add_sync,
  add_okay, add_verify, settle, give, start_and_give, max_verify_threads,
}
use ugly_ff.TaskPool.Census.{
  here, count, held, one, census, total-update, check_queue-held, add-held, scan-census,
}
use ugly_ff.TaskPool.Census.Rounds.{
  verify_visit-census, timeout_visit-census, sync_visit-census, okay_visit-census,
  advance_visit-census, recycle_visit-census, reset_visit-census, free_visit-census,
  serve_all-count,
}
use ugly_ff.TaskPool.Rounds.{
  Virtuals, scan, drop_to_recycle, add_unique, verified, verify_visit, timeout_visit, synced_visit,
  sync_visit, okay_visit, serve_all, greet, recycled, recycle_visit, reset_visit, advance_visit,
  free_visit, verify_tasks, okay_tasks, verify_round, verify_final, sync_round, sync_final,
  okay_round, okay_final, recycle_round, recycle_final,
}

scan-same {κ} :
    {B : Type κ} (part : Pool → B) (visit : Conn → Pool → Option Conn × Pool) (cs : List Conn)
    (p : Pool)
    → ((c : Conn) (q : Pool) → part (visit c q).1 ≡ part q)
    → part (scan visit cs p).1 ≡ part p
unfolding scan
scan-same part visit [] p h = refl
scan-same part visit (c ∷ cs) p h = scan-same part visit cs (visit c p).1 h ∙ h c p

-- The verify threads' visits leave the verify threads alone, and so on.
module _ (v : Virtuals) where
  verify_visit-same :
      (c : Conn) (p : Pool) → (verify_visit v c p).1.verify_threads ≡ p.verify_threads
  unfolding verify_visit verified add_unique drop_to_recycle or_lost add_sync add_recycle
  verify_visit-same c p = ground arith

  timeout_visit-same :
      (now : RTime) (c : Conn) (p : Pool)
      → (timeout_visit v now c p).1.verify_threads ≡ p.verify_threads
  unfolding timeout_visit drop_to_recycle or_lost add_recycle
  timeout_visit-same now c p = ground arith

  reset_visit-same :
      (c : Conn) (p : Pool)
      → ((reset_visit v c p).1.verify_threads ≡ p.verify_threads)
        × ((reset_visit v c p).1.sync_thread ≡ p.sync_thread)
  unfolding reset_visit drop_to_recycle or_lost add_recycle
  reset_visit-same c p = ground arith

  okay_visit-same :
      (now : RTime) (c : Conn) (p : Pool) → (okay_visit v now c p).1.okay_threads ≡ p.okay_threads
  unfolding okay_visit or_lost add_recycle
  okay_visit-same now c p = ground arith

  recycle_visit-same :
      (c : Conn) (p : Pool) → (recycle_visit v c p).1.recycle_thread ≡ p.recycle_thread
  unfolding recycle_visit recycled
  recycle_visit-same c p = ground arith

  sync_visit-same :
      (created : Bool) (c : Conn) (p : Pool)
      → (sync_visit v created c p).1.sync_thread ≡ p.sync_thread
  unfolding sync_visit synced_visit drop_to_recycle or_lost add_recycle add_okay settle give
      start_and_give
  sync_visit-same created c p = ground arith

  advance_visit-same : (c : Conn) (p : Pool) → (advance_visit v c p).1.okay_threads ≡ p.okay_threads
  unfolding advance_visit or_lost add_recycle
  advance_visit-same c p = ground arith

  free_visit-same : (c : Conn) (p : Pool) → (free_visit v c p).1.recycle_thread ≡ p.recycle_thread
  unfolding free_visit recycled
  free_visit-same c p = refl

module _ (x : ℕ) (v : Virtuals) where
  verify_tasks-census :
      (i : ℕ) (u w : Worker) (tasks : List Conn) (p : Pool)
      → get_elem? p.verify_threads i ≡ some u
      → census x (verify_tasks v i w tasks p) + held x u
        ≡ census x p + (count x w.queue + count x tasks)
  unfolding verify_tasks counted
  verify_tasks-census i u w tasks p e =
      omega (arith, total-update x i u (counted tasks w) p.verify_threads e)

  okay_tasks-census :
      (i : ℕ) (u w : Worker) (tasks : List Conn) (p : Pool)
      → get_elem? p.okay_threads i ≡ some u
      → census x (okay_tasks v i w tasks p) + held x u
        ≡ census x p + (count x w.queue + count x tasks)
  unfolding okay_tasks counted
  okay_tasks-census i u w tasks p e =
      omega (arith, total-update x i u (counted tasks w) p.okay_threads e)

  pub verify_round-census :
      (now : RTime) (i : ℕ) (p : Pool) → census x (verify_round v now i p) ≡ census x p
  unfolding verify_round
  verify_round-census now i p = elim (Option-cases (get_elem? p.verify_threads i)) [
    | inl e ↦ rw (verify_round, e) refl
    | inr (u, e) ↦
        let w = check_queue (λ c. c) u in
        let young = scan (timeout_visit v now) w.tasks p in
        let kept = scan (verify_visit v) young.0 young.1 in
        let same : kept.1.verify_threads ≡ p.verify_threads =
          scan-same (λ q. q.verify_threads) (verify_visit v) young.0 young.1 (verify_visit-same v)
          ∙ scan-same (λ q. q.verify_threads) (timeout_visit v now) w.tasks p
              (timeout_visit-same v now) in
        rw (verify_round, e)
          (omega (
            arith,
            verify_tasks-census i u w kept.0 kept.1 (ap (λ ws. get_elem? ws i) same ∙ e),
            scan-census x (verify_visit v) young.0 young.1 (verify_visit-census x v),
            scan-census x (timeout_visit v now) w.tasks p (timeout_visit-census x v now),
            check_queue-held x (λ c. c) u (λ c. refl),
          ))
  ]

  pub verify_final-census : (i : ℕ) (p : Pool) → census x (verify_final v i p) ≡ census x p
  unfolding verify_final
  verify_final-census i p = elim (Option-cases (get_elem? p.verify_threads i)) [
    | inl e ↦ rw (verify_final, e) refl
    | inr (u, e) ↦
        let kept = scan (reset_visit v) u.tasks p in
        let same : kept.1.verify_threads ≡ p.verify_threads =
          scan-same (λ q. q.verify_threads) (reset_visit v) u.tasks p
            (λ c q. (reset_visit-same v c q).0) in
        rw (verify_final, e)
          (omega (
            arith,
            verify_tasks-census i u u kept.0 kept.1 (ap (λ ws. get_elem? ws i) same ∙ e),
            scan-census x (reset_visit v) u.tasks p (reset_visit-census x v),
          ))
  ]

  pub okay_round-census :
      (now : RTime) (i : ℕ) (p : Pool) → census x (okay_round v now i p) ≡ census x p
  unfolding okay_round greet holding
  okay_round-census now i p = elim (Option-cases (get_elem? p.okay_threads i)) [
    | inl e ↦ rw (okay_round, e) refl
    | inr (u, e) ↦
        let w = check_queue (greet v) u in
        let kept = scan (okay_visit v now) w.tasks p in
        let same : kept.1.okay_threads ≡ p.okay_threads =
          scan-same (λ q. q.okay_threads) (okay_visit v now) w.tasks p (okay_visit-same v now) in
        rw (okay_round, e)
          (omega (
            arith,
            okay_tasks-census i u w (serve_all v kept.0) kept.1
                (ap (λ ws. get_elem? ws i) same ∙ e),
            serve_all-count x v kept.0,
            scan-census x (okay_visit v now) w.tasks p (okay_visit-census x v now),
            check_queue-held x (greet v) u (λ c. refl),
          ))
  ]

  pub okay_final-census : (i : ℕ) (p : Pool) → census x (okay_final v i p) ≡ census x p
  unfolding okay_final
  okay_final-census i p = elim (Option-cases (get_elem? p.okay_threads i)) [
    | inl e ↦ rw (okay_final, e) refl
    | inr (u, e) ↦
        let kept = scan (advance_visit v) u.tasks p in
        let same : kept.1.okay_threads ≡ p.okay_threads =
          scan-same (λ q. q.okay_threads) (advance_visit v) u.tasks p (advance_visit-same v) in
        rw (okay_final, e)
          (omega (
            arith,
            okay_tasks-census i u u kept.0 kept.1 (ap (λ ws. get_elem? ws i) same ∙ e),
            scan-census x (advance_visit v) u.tasks p (advance_visit-census x v),
          ))
  ]

  pub sync_round-census :
      (created : Bool) (p : Pool) → census x (sync_round v created p) ≡ census x p
  unfolding sync_round
  sync_round-census created p = elim (Option-cases p.sync_thread) [
    | inl e ↦ rw (sync_round, e) (omega (arith, ap (one x) e))
    | inr (u, e) ↦
        let w = check_queue (λ c. c) u in
        let kept = scan (sync_visit v created) w.tasks p in
        let same : kept.1.sync_thread ≡ p.sync_thread =
          scan-same (λ q. q.sync_thread) (sync_visit v created) w.tasks p
            (sync_visit-same v created) in
        rw (sync_round, e)
          (omega (
            arith,
            ap (one x) (same ∙ e),
            ap (one x) e,
            scan-census x (sync_visit v created) w.tasks p (sync_visit-census x v created),
            check_queue-held x (λ c. c) u (λ c. refl),
          ))
  ]

  pub sync_final-census : (p : Pool) → census x (sync_final v p) ≡ census x p
  unfolding sync_final
  sync_final-census p = elim (Option-cases p.sync_thread) [
    | inl e ↦ rw (sync_final, e) (omega (arith, ap (one x) e))
    | inr (u, e) ↦
        let kept = scan (reset_visit v) u.tasks p in
        let same : kept.1.sync_thread ≡ p.sync_thread =
          scan-same (λ q. q.sync_thread) (reset_visit v) u.tasks p
            (λ c q. (reset_visit-same v c q).1) in
        rw (sync_final, e)
          (omega (
            arith,
            ap (one x) (same ∙ e),
            ap (one x) e,
            scan-census x (reset_visit v) u.tasks p (reset_visit-census x v),
          ))
  ]

  pub recycle_round-census : (p : Pool) → census x (recycle_round v p) ≡ census x p
  unfolding recycle_round
  recycle_round-census p = elim (Option-cases p.recycle_thread) [
    | inl e ↦ rw (recycle_round, e) (omega (arith, ap (one x) e))
    | inr (u, e) ↦
        let w = check_queue (λ c. c) u in
        let kept = scan (recycle_visit v) w.tasks p in
        let same : kept.1.recycle_thread ≡ p.recycle_thread =
          scan-same (λ q. q.recycle_thread) (recycle_visit v) w.tasks p (recycle_visit-same v) in
        rw (recycle_round, e)
          (omega (
            arith,
            ap (one x) (same ∙ e),
            ap (one x) e,
            scan-census x (recycle_visit v) w.tasks p (recycle_visit-census x v),
            check_queue-held x (λ c. c) u (λ c. refl),
          ))
  ]

  pub recycle_final-census : (p : Pool) → census x (recycle_final v p) ≡ census x p
  unfolding recycle_final
  recycle_final-census p = elim (Option-cases p.recycle_thread) [
    | inl e ↦ rw (recycle_final, e) (omega (arith, ap (one x) e))
    | inr (u, e) ↦
        let kept = scan (free_visit v) u.tasks p in
        let same : kept.1.recycle_thread ≡ p.recycle_thread =
          scan-same (λ q. q.recycle_thread) (free_visit v) u.tasks p (free_visit-same v) in
        rw (recycle_final, e)
          (omega (
            arith,
            ap (one x) (same ∙ e),
            ap (one x) e,
            scan-census x (free_visit v) u.tasks p (free_visit-census x v),
          ))
  ]

  pub add_verify-census :
      (c : Conn) (p : Pool)
      → census x (add_verify v.hooks c p).1
        ≡ (if (add_verify v.hooks c p).0 then here x c else 0) + census x p
  unfolding add_verify advance holding
  add_verify-census c p =
      elim (Option-cases (get_elem? p.verify_threads (p.hash_code % max_verify_threads))) [
        | inl e ↦ rw (add_verify, e) (omega arith)
        | inr (w, e) ↦
            rw (add_verify, e)
              (omega (
                arith,
                add-held x (advance v.hooks c) w,
                total-update x _ w (add (advance v.hooks c) w) p.verify_threads e,
              ))
      ]

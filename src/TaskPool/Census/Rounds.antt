-- ===== src/TaskPool/Census/Rounds.antt =====
-- Where the connections are, over the rounds of the four kinds of threads.
use ugly_ff.Base.{
  is_minus_one, ℕ, ◌+◌, ◌≡◌, refl, ap, ◌∙◌, inl, inr, Bool, Bool-cases, List, [], ◌∷◌, none, some,
  if◌then◌else◌, arith, ℤ,
}
use ugly_ff.Time.{RTime}
use ugly_ff.Socket.{poll_recv}
use ugly_ff.Task.{Task, is_positive, check_verify_timeout, check_signal, is_terminate, set_unique}
use ugly_ff.TaskPool.{Conn, holding, Pool, advance, reset, add_okay}
use ugly_ff.TaskPool.Rounds.{
  Answer, success, wait, failure, Virtuals, keep, drop_to_recycle, seen, add_unique, verified,
  verify_visit, timeout_visit, synced_visit, sync_visit, heed, okay_visit, serve, serve_all, polled,
  release, recycled, recycle_visit, reset_visit, advance_visit, free_visit,
}
use ugly_ff.TaskPool.Census.{
  here, count, census, add_recycle-census, add_sync-census, add_okay-census,
}

module _ (x : ℕ) where
  erased : (n : ℕ) {m : ℕ} → n ≡ m → count x (keep none []) + n ≡ m
  unfolding keep
  erased n e = omega (arith, e)

  pub drop_to_recycle-census :
      (c : Conn) (p : Pool)
      → count x (keep (drop_to_recycle c p).0 []) + census x (drop_to_recycle c p).1
        ≡ here x c + census x p
  unfolding drop_to_recycle reset holding
  drop_to_recycle-census c p = erased _ (add_recycle-census x (reset c) p)

  kept-census :
      (c : Conn) (p : Pool) → count x (keep (some c) []) + census x p ≡ here x c + census x p
  unfolding keep
  kept-census c p = omega arith

  add_unique-census :
      (v : Virtuals) (c : Conn) (p : Pool)
      → count x (keep (add_unique v c p).0 []) + census x (add_unique v c p).1
        ≡ here x c + census x p
  unfolding add_unique holding
  add_unique-census v c p = elim (Bool-cases (v.unique_add c).0) [
    | inl e ↦
        rw e (erased _ (add_sync-census x v.hooks (holding (set_unique (v.unique_add c).1) c) p))
    | inr e ↦ rw e (drop_to_recycle-census (holding (v.unique_add c).1 c) p)
  ]

  verified-census :
      (v : Virtuals) (a : Answer) (c : Conn) (p : Pool)
      → count x (keep (verified v a c p).0 []) + census x (verified v a c p).1
        ≡ here x c + census x p
  unfolding verified
  verified-census v success c p = add_unique-census v c p
  verified-census v wait c p = kept-census c p
  verified-census v failure c p = drop_to_recycle-census c p

  pub verify_visit-census :
      (v : Virtuals) (c : Conn) (p : Pool)
      → count x (keep (verify_visit v c p).0 []) + census x (verify_visit v c p).1
        ≡ here x c + census x p
  unfolding verify_visit seen holding
  verify_visit-census v c p = elim (Bool-cases (is_minus_one (poll_recv (v.see c).socket))) [
    | inl e ↦ rw e (drop_to_recycle-census (seen v c) p)
    | inr e ↦ elim (Bool-cases (is_positive (poll_recv (v.see c).socket))) [
      | inl q ↦
          rw (e, q)
            (verified-census v (v.verify_conn (seen v c)).0 (holding (v.verify_conn (seen v c)).1 c)
              p)
      | inr q ↦ rw (e, q) (kept-census (seen v c) p)
    ]
  ]

  pub timeout_visit-census :
      (v : Virtuals) (now : RTime) (c : Conn) (p : Pool)
      → count x (keep (timeout_visit v now c p).0 []) + census x (timeout_visit v now c p).1
        ≡ here x c + census x p
  unfolding timeout_visit
  timeout_visit-census v now c p = elim (Bool-cases (check_verify_timeout now c.task)) [
    | inl e ↦ rw e (drop_to_recycle-census c p)
    | inr e ↦ rw e (kept-census c p)
  ]

  synced_visit-census :
      (v : Virtuals) (a : Answer) (created : Bool) (c : Conn) (p : Pool)
      → count x (keep (synced_visit v a created c p).0 [])
          + census x (synced_visit v a created c p).1
        ≡ here x c + census x p
  unfolding synced_visit
  synced_visit-census v success created c p =
      let put = add_okay-census x v.hooks created c p in
      elim (Bool-cases (add_okay v.hooks created c p).0) [
        | inl e ↦
            let taken : census x (add_okay v.hooks created c p).1 ≡ here x c + census x p =
              put ∙ ap (λ b. (if b then here x c else 0) + census x p) e in
            rw e (erased _ taken)
        | inr e ↦
            let same : census x (add_okay v.hooks created c p).1 ≡ census x p =
              put ∙ ap (λ b. (if b then here x c else 0) + census x p) e ∙ omega arith in
            rw e (
              drop_to_recycle-census c (add_okay v.hooks created c p).1
              ∙ ap (λ n. here x c + n) same)
      ]
  synced_visit-census v wait created c p = kept-census c p
  synced_visit-census v failure created c p = drop_to_recycle-census c p

  pub sync_visit-census :
      (v : Virtuals) (created : Bool) (c : Conn) (p : Pool)
      → count x (keep (sync_visit v created c p).0 []) + census x (sync_visit v created c p).1
        ≡ here x c + census x p
  unfolding sync_visit holding
  sync_visit-census v created c p =
      synced_visit-census v (v.wait_sync c).0 created (holding (v.wait_sync c).1 c) p

  pub advance_visit-census :
      (v : Virtuals) (c : Conn) (p : Pool)
      → count x (keep (advance_visit v c p).0 []) + census x (advance_visit v c p).1
        ≡ here x c + census x p
  unfolding advance_visit advance holding
  advance_visit-census v c p = erased _ (add_recycle-census x (advance v.hooks c) p)

  pub okay_visit-census :
      (v : Virtuals) (now : RTime) (c : Conn) (p : Pool)
      → count x (keep (okay_visit v now c p).0 []) + census x (okay_visit v now c p).1
        ≡ here x c + census x p
  unfolding okay_visit advance_visit holding
  okay_visit-census v now c p =
      let c' = holding (heed v (check_signal now c.task)) c in
      elim (Bool-cases (is_terminate c'.task)) [
        | inl e ↦ rw e (advance_visit-census v c' p)
        | inr e ↦ rw e (kept-census c' p)
      ]

  release-ptr : (v : Virtuals) (c : Conn) → (release v c).ptr ≡ c.ptr
  unfolding release advance holding
  release-ptr v c = ground arith

  pub recycled-census :
      (v : Virtuals) (a : Answer) (c : Conn) (p : Pool)
      → count x (keep (recycled v a c p).0 []) + census x (recycled v a c p).1
        ≡ here x c + census x p
  unfolding recycled keep
  recycled-census v success c p =
      let same : here x (release v c) ≡ here x c = rw (release-ptr v c) refl in omega (arith, same)
  recycled-census v wait c p = omega arith
  recycled-census v failure c p = omega arith

  pub recycle_visit-census :
      (v : Virtuals) (c : Conn) (p : Pool)
      → count x (keep (recycle_visit v c p).0 []) + census x (recycle_visit v c p).1
        ≡ here x c + census x p
  unfolding recycle_visit holding
  recycle_visit-census v c p =
      recycled-census v (v.recycle_conn c).0 (holding (v.recycle_conn c).1 c) p

  polled-ptr :
      (v : Virtuals) (r : ℤ) (act : Conn → Bool × Task) (c : Conn) → (polled v r act c).ptr ≡ c.ptr
  unfolding polled holding
  polled-ptr v r act c = ground arith

  serve-ptr : (v : Virtuals) (c : Conn) → (serve v c).ptr ≡ c.ptr
  unfolding serve seen holding polled
  serve-ptr v c = ground arith

  pub serve_all-count : (v : Virtuals) (cs : List Conn) → count x (serve_all v cs) ≡ count x cs
  unfolding serve_all
  serve_all-count v [] = refl
  serve_all-count v (c ∷ cs) =
      let same : here x (serve v c) ≡ here x c = rw (serve-ptr v c) refl in
      omega (arith, same, serve_all-count v cs)

  pub reset_visit-census :
      (v : Virtuals) (c : Conn) (p : Pool)
      → count x (keep (reset_visit v c p).0 []) + census x (reset_visit v c p).1
        ≡ here x c + census x p
  unfolding reset_visit
  reset_visit-census v c p = drop_to_recycle-census c p

  pub free_visit-census :
      (v : Virtuals) (c : Conn) (p : Pool)
      → count x (keep (free_visit v c p).0 []) + census x (free_visit v c p).1
        ≡ here x c + census x p
  unfolding free_visit
  free_visit-census v c p = recycled-census v success c p

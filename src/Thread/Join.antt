-- ===== src/Thread/Join.antt =====
-- joinAll of a thread group.
use ugly_ff.Base.{
  ℕ, ◌≡◌, refl, ap, sym, ◌∙◌, Bool, true, false, subst, Bool-cases, Option-cases, inl, inr, List,
  [], ◌∷◌, ◌++◌, Option, none, some, if◌then◌else◌, ◌==◌, arith, All,
}
use ugly_ff.Thread.{
  Thread, ThreadGroup, same_pointer, has_thread, final, leave_run, join_thread, join_from_back,
  join_all,
}
use ugly_ff.Thread.Group.{Different}

-- the thread was told to end, and has ended
pub record HasEnded (t : Thread) : Type 0 where
  pub told : t.complete ≡ true
  pub over : t.alive ≡ false

-- The thread was started and has not ended, it stays until join has looked at its handle, and it does
-- not delete itself.
pub record CanJoin (t : Thread) (early : Bool) : Type 0 where
  pub started : t.has_handle ≡ true
  pub joinable : t.joinable ≡ true
  pub stays : early ≡ false

-- NULL is skipped.
abbrev pub Ready : (ℕ → Bool) → (ℕ → Thread) → Option ℕ → Type 0
Ready early threads none = Unit {0}
Ready early threads (some p) = CanJoin (threads p) (early p)

-- the pointers that are not NULL
abbrev pub pointers : List (Option ℕ) → List ℕ
pointers [] = []
pointers (none ∷ ps) = pointers ps
pointers (some p ∷ ps) = p ∷ pointers ps

-- `h` is the group `g` once the threads of `ps` were joined and deleted.
pub record Joined (ps : List (Option ℕ)) (g h : ThreadGroup) : Type 0 where
  pub others : (q : ℕ) → has_thread (some q) ps ≡ false → h.threads q ≡ g.threads q
  pub ended : (q : ℕ) → has_thread (some q) ps ≡ true → HasEnded (h.threads q)
  pub same_vts : h.vts ≡ g.vts
  pub deleted : h.deleted ≡ pointers ps ++ g.deleted

leave-HasEnded : (t : Thread) → t.joinable ≡ true → HasEnded (leave_run (final t)).1
unfolding leave_run final
leave-HasEnded t y = rw y (record { told = refl; over = refl })

module _ (early : ℕ → Bool) where
  -- the group behind a join that comes back
  abbrev joined : ℕ → ThreadGroup → ThreadGroup
  joined p g = record g {
    threads = λ q. if q == p then (leave_run (final (g.threads p))).1 else g.threads q;
    deleted = p ∷ g.deleted;
  }

  can_join :
      (p : ℕ) (g : ThreadGroup)
      → CanJoin (g.threads p) (early p)
      → join_thread early (some p) g ≡ some (joined p g)
  unfolding join_thread final leave_run
  can_join p g c = rw (c.started, c.joinable, c.stays) refl

  joined_can :
      (p : ℕ) (g : ThreadGroup) {h : ThreadGroup}
      → join_thread early (some p) g ≡ some h
      → CanJoin (g.threads p) (early p)
  unfolding join_thread final leave_run
  joined_can p g e = elim (Bool-cases (g.threads p).has_handle) [
    | inr n ↦
        let stuck : join_thread early (some p) g ≡ none = rw (join_thread, n) refl in absurd (cc)
    | inl y ↦ elim (Bool-cases (early p)) [
      | inl z ↦
          let stuck : join_thread early (some p) g ≡ none = rw (join_thread, y, z) refl in
          absurd (cc)
      | inr m ↦ elim (Bool-cases (g.threads p).joinable) [
        | inl j ↦ record { started = y; joinable = j; stays = m }
        | inr k ↦
            let stuck : join_thread early (some p) g ≡ none = rw (join_thread, y, m, k) refl in
            absurd (cc)
      ]
    ]
  ]

  joined-Joined :
      (p : ℕ) (ps : List (Option ℕ)) (g h : ThreadGroup)
      → CanJoin (h.threads p) (early p)
      → has_thread (some p) ps ≡ false
      → Joined ps g h
      → Joined (some p ∷ ps) g (joined p h)
  unfolding has_thread same_pointer
  joined-Joined p ps g h c new j = record {
    others = λ q out. elim (Bool-cases (p == q)) [
      | inl y ↦ absurd (let both : true ≡ false = sym (rw y refl) ∙ out in cc)
      | inr n ↦
          let back : (q == p) ≡ false = ground arith in rw back (j.others q (sym (rw n refl) ∙ out))
    ];
    ended = λ q out. elim (Bool-cases (p == q)) [
      | inl y ↦
          let back : (q == p) ≡ true = ground arith in
          let same : p ≡ q = ground arith in rw back (leave-HasEnded (h.threads p) c.joinable)
      | inr n ↦
          let back : (q == p) ≡ false = ground arith in rw back (j.ended q (sym (rw n refl) ∙ out))
    ];
    same_vts = j.same_vts;
    deleted = ap (◌∷◌ p) j.deleted;
  }

  -- Where all threads can be joined, the loop comes back.
  join_from_back-Joined :
      (ps : List (Option ℕ)) (g : ThreadGroup)
      → Different ps
      → All (Ready early g.threads) ps
      → (h : ThreadGroup) × (join_from_back early ps g ≡ some h) × Joined ps g h
  unfolding join_from_back join_thread has_thread same_pointer
  join_from_back-Joined [] g d r = (
    g,
    refl,
    record {
      others = λ q out. refl;
      ended = λ q there. absurd (cc);
      same_vts = refl;
      deleted = refl;
    },
  )
  join_from_back-Joined (none ∷ ps) g d r =
      let (h, e, j) = join_from_back-Joined ps g d.1 r.1 in
      (
        h,
        rw e refl,
        record { others = j.others; ended = j.ended; same_vts = j.same_vts; deleted = j.deleted },
      )
  join_from_back-Joined (some p ∷ ps) g d r =
      let (h, e, j) = join_from_back-Joined ps g d.1 r.1 in
      let c : CanJoin (h.threads p) (early p) =
        subst (λ t. CanJoin t (early p)) (sym (j.others p d.0)) r.0 in
      (joined p h, rw e (can_join p h c), joined-Joined p ps g h c d.0 j)

  -- Where the loop comes back, all threads could be joined.
  join_from_back-Ready :
      (ps : List (Option ℕ)) (g : ThreadGroup) {h : ThreadGroup}
      → Different ps
      → join_from_back early ps g ≡ some h
      → All (Ready early g.threads) ps
  unfolding join_from_back join_thread
  join_from_back-Ready [] g d e = tt
  join_from_back-Ready (p ∷ ps) g {h} d e = elim (Option-cases (join_from_back early ps g)) [
    | inl n ↦
        let stuck : join_from_back early (p ∷ ps) g ≡ none = rw (join_from_back, n) refl in
        absurd (cc)
    | inr (m, f) ↦
        let rest = join_from_back-Ready ps g d.1 f in
        let (k, f₂, j) = join_from_back-Joined ps g d.1 rest in
        let same : k ≡ m = cc in
        let last : join_thread early p m ≡ some h = sym (rw (join_from_back, f) refl) ∙ e in
        (first p k d.0 j (subst (λ x. join_thread early p x ≡ some h) (sym same) last), rest)
  ]
    where
      first :
          (p : Option ℕ) (k : ThreadGroup) {h : ThreadGroup}
          → has_thread p ps ≡ false
          → Joined ps g k
          → join_thread early p k ≡ some h
          → Ready early g.threads p
      first none k n j e = tt
      first (some p) k n j e = subst (λ t. CanJoin t (early p)) (j.others p n) (joined_can p k e)

-- For a group in which no thread stands twice, joinAll comes back exactly where each of its threads
-- was started, has not ended before its join, and is joinable (of any other the join is undefined, or
-- the thread is deleted twice). Then the group has no thread, each thread that it had was told to end
-- and has ended, and each was deleted once; no other thread is touched.
pub join_all-Joined :
    (early : ℕ → Bool) (g : ThreadGroup)
    → Different g.vts
    → (All (Ready early g.threads) g.vts
        → (h : ThreadGroup) × (join_all early g ≡ some h) × Joined g.vts (record g { vts = [] }) h)
      × ((h : ThreadGroup) → join_all early g ≡ some h → All (Ready early g.threads) g.vts)
unfolding join_all
join_all-Joined early g d = (
  λ r. join_from_back-Joined early g.vts (record g { vts = [] }) d r,
  λ h e. join_from_back-Ready early g.vts (record g { vts = [] }) d e,
)

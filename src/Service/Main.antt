-- ===== src/Service/Main.antt =====
-- include/zService.cpp: the life of a service in zService::main.
use mathlib.Core.Option
use ugly_ff.Base.{
  ℕ, zero, suc, ◌<◌, ◌≡◌, refl, sym, ap, subst, ◌∙◌, true, false, Bool-cases, inl, inr, Option,
  none, some, arith,
}
use ugly_ff.Service.{Virtual, main_loop, then_loop, then_validate, main}

some_inj : {A : Type 0} {a b : A} → some a ≡ some b → a ≡ b
some_inj e = cc

module _ {S : Type 0} (v : Virtual S) where
  -- The rounds from `s` on end in `u` after `n` callbacks: the other threads have set the flag, or
  -- the callback says no.
  pub data Rounds : S → ℕ → S → Type 0 where
    terminates : (s : S) → v.terminated (v.others s) ≡ true → Rounds s 0 (v.others s)
    says_no :
        (s : S)
        → v.terminated (v.others s) ≡ false
        → (v.callback (v.others s)).0 ≡ false
        → Rounds s 1 (v.callback (v.others s)).1
    again :
        (s : S) {n : ℕ} {u : S}
        → v.terminated (v.others s) ≡ false
        → (v.callback (v.others s)).0 ≡ true
        → Rounds (v.callback (v.others s)).1 n u
        → Rounds s (suc n) u

  -- a whole life with `n` callbacks
  pub data Life (s : S) : ℕ → S → Type 0 where
    init_fails : (v.init s).0 ≡ false → Life s 0 (v.final (v.init s).1)
    validate_fails :
        (v.init s).0 ≡ true
        → (v.validate (v.init s).1).0 ≡ false
        → Life s 0 (v.final (v.validate (v.init s).1).1)
    serves :
        {n : ℕ} {u : S}
        → (v.init s).0 ≡ true
        → (v.validate (v.init s).1).0 ≡ true
        → Rounds (v.validate (v.init s).1).1 n u
        → Life s n (v.final u)

  module _ (fuel : ℕ) (s : S) where
    loop_terminated :
        v.terminated (v.others s) ≡ true → main_loop v (suc fuel) s ≡ some (v.others s)
    unfolding main_loop
    loop_terminated t = rw t

    loop_refused :
        v.terminated (v.others s) ≡ false
        → (v.callback (v.others s)).0 ≡ false
        → main_loop v (suc fuel) s ≡ some (v.callback (v.others s)).1
    unfolding main_loop
    loop_refused t c = rw (t, c)

    loop_again :
        v.terminated (v.others s) ≡ false
        → (v.callback (v.others s)).0 ≡ true
        → main_loop v (suc fuel) s ≡ main_loop v fuel (v.callback (v.others s)).1
    unfolding main_loop
    loop_again t c = rw (t, c)

  Rounds-loop : (fuel : ℕ) {s u : S} {n : ℕ} → Rounds s n u → n < fuel → main_loop v fuel s ≡ some u
  Rounds-loop zero r h = absurd (omega arith)
  Rounds-loop (suc fuel) (terminates s t) h = loop_terminated fuel s t
  Rounds-loop (suc fuel) (says_no s t c) h = loop_refused fuel s t c
  Rounds-loop (suc fuel) (again s t c r) h =
      loop_again fuel s t c ∙ Rounds-loop fuel r (omega arith)

  loop-Rounds : (fuel : ℕ) (s u : S) → main_loop v fuel s ≡ some u → (n : ℕ) × Rounds s n u
  unfolding main_loop
  loop-Rounds zero s u h = cc
  loop-Rounds (suc fuel) s u h = elim (Bool-cases (v.terminated (v.others s))) [
    | inl t ↦
        let ends = loop_terminated fuel s t in
        let e : v.others s ≡ u = cc in (0, subst (Rounds s 0) e (terminates s t))
    | inr t ↦ elim (Bool-cases (v.callback (v.others s)).0) [
      | inl c ↦
          let (n, r) =
            loop-Rounds fuel (v.callback (v.others s)).1 u (sym (loop_again fuel s t c) ∙ h) in
          (suc n, again s t c r)
      | inr c ↦
          let ends = loop_refused fuel s t c in
          let e : (v.callback (v.others s)).1 ≡ u = cc in (1, subst (Rounds s 1) e (says_no s t c))
    ]
  ]

  -- main, by what init and validate said
  main_unstarted :
      (fuel : ℕ) (s : S) → (v.init s).0 ≡ false → main v fuel s ≡ some (v.final (v.init s).1)
  unfolding main
  main_unstarted fuel s i = ap (λ b. Option.map v.final (then_validate v fuel (b, (v.init s).1))) i

  main_invalid :
      (fuel : ℕ) (s : S)
      → (v.init s).0 ≡ true
      → (v.validate (v.init s).1).0 ≡ false
      → main v fuel s ≡ some (v.final (v.validate (v.init s).1).1)
  unfolding main
  main_invalid fuel s i w =
      ap (λ b. Option.map v.final (then_validate v fuel (b, (v.init s).1))) i
      ∙ ap (λ b. Option.map v.final (then_loop v fuel (b, (v.validate (v.init s).1).1))) w

  main_served :
      (fuel : ℕ) (s : S)
      → (v.init s).0 ≡ true
      → (v.validate (v.init s).1).0 ≡ true
      → main v fuel s ≡ Option.map v.final (main_loop v fuel (v.validate (v.init s).1).1)
  unfolding main
  main_served fuel s i w =
      ap (λ b. Option.map v.final (then_validate v fuel (b, (v.init s).1))) i
      ∙ ap (λ b. Option.map v.final (then_loop v fuel (b, (v.validate (v.init s).1).1))) w

  Life-main : (fuel : ℕ) {s u : S} {n : ℕ} → Life s n u → n < fuel → main v fuel s ≡ some u
  Life-main fuel {s} (init_fails i) h = main_unstarted fuel s i
  Life-main fuel {s} (validate_fails i w) h = main_invalid fuel s i w
  Life-main fuel {s} (serves i w r) h =
      main_served fuel s i w ∙ ap (Option.map v.final) (Rounds-loop fuel r h)

  served :
      (fuel : ℕ) (s u : S)
      → (v.init s).0 ≡ true
      → (v.validate (v.init s).1).0 ≡ true
      → (o : Option S) → main_loop v fuel (v.validate (v.init s).1).1 ≡ o
      → Option.map v.final o ≡ some u
      → (n : ℕ) × Life s n u
  served fuel s u i w none ran h = cc
  served fuel s u i w (some t) ran h =
      let (n, r) = loop-Rounds fuel _ t ran in (n, subst (Life s n) (some_inj h) (serves i w r))

  main-Life : (fuel : ℕ) (s u : S) → main v fuel s ≡ some u → (n : ℕ) × Life s n u
  main-Life fuel s u h = elim (Bool-cases (v.init s).0) [
    | inr i ↦
        let e : v.final (v.init s).1 ≡ u = some_inj (sym (main_unstarted fuel s i) ∙ h) in
        (0, subst (Life s 0) e (init_fails i))
    | inl i ↦ elim (Bool-cases (v.validate (v.init s).1).0) [
      | inr w ↦
          let e : v.final (v.validate (v.init s).1).1 ≡ u =
            some_inj (sym (main_invalid fuel s i w) ∙ h) in
          (0, subst (Life s 0) e (validate_fails i w))
      | inl w ↦
          served fuel s u i w (main_loop v fuel (v.validate (v.init s).1).1) refl
            (sym (main_served fuel s i w) ∙ h)
    ]
  ]

-- zService::main ends with `u` exactly where `u` is the end of a life of the service: init; validate
-- only if init said yes; then, only if validate did too, callbacks until the other threads have set
-- the flag or a callback says no; and final, once and last, in every case. A life with `n` callbacks
-- needs fuel for one more round.
pub main_Life :
    {S : Type 0} (v : Virtual S) (s u : S) (n fuel : ℕ)
    → (Life v s n u → n < fuel → main v fuel s ≡ some u)
      × (main v fuel s ≡ some u → (m : ℕ) × Life v s m u)
main_Life v s u n fuel = (λ l h. Life-main v fuel l h, main-Life v fuel s u)

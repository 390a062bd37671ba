-- ===== src/Server/Manager/Broadcast.antt =====
-- To whom the broadcasts go.
use ugly_ff.Base.{
  ℕ, ◌≡◌, refl, ap, ap₂, sym, subst, ◌∙◌, inl, inr, Bool, true, false, ◌&&◌, Bool-cases, List, [],
  ◌∷◌, if◌then◌else◌, ◌==◌, ==_iff, arith,
}
use ugly_ff.Server.Manager.{
  Methods, Manager, assign, send_to, send_all, broadcast, broadcast_by_type,
}

-- whether the list has the pointer
abbrev pub member : ℕ → List ℕ → Bool
member q [] = false
member q (p ∷ ps) = if q == p then true else member q ps

-- no pointer stands twice
abbrev pub Once : List ℕ → Type 0
Once [] = Unit {0}
Once (p ∷ ps) = (member p ps ≡ false) × Once ps

module _ {S : Type 0} (methods : Methods S) (wanted : S → Bool) (cmd : List ℕ) where
  -- the specification: every wanted member of the list is sent the command, and nobody else
  abbrev pub reached : List ℕ → (ℕ → S) → ℕ → S
  reached ps store q =
      if member q ps
      then (if wanted (store q) then (methods.send_cmd cmd (store q)).1 else store q)
      else store q

  -- every sendCmd to a wanted member succeeds
  abbrev pub all_sent : List ℕ → (ℕ → S) → Bool
  all_sent [] store = true
  all_sent (p ∷ ps) store =
      (if wanted (store p) then (methods.send_cmd cmd (store p)).0 else true) && all_sent ps store

  one_step : ℕ → (ℕ → S) → Bool × (ℕ → S)
  one_step p store = if wanted (store p) then send_to methods cmd p store else (true, store)

  one_step-there : (p q : ℕ) (store : ℕ → S) → (q == p) ≡ false → (one_step p store).1 q ≡ store q
  unfolding one_step send_to assign
  one_step-there p q store e = elim (Bool-cases (wanted (store p))) [
    | inl y ↦ rw (y, e) refl
    | inr n ↦ rw n refl
  ]

  one_step-here :
      (p : ℕ) (store : ℕ → S)
      → ((one_step p store).1 p
          ≡ (if wanted (store p) then (methods.send_cmd cmd (store p)).1 else store p))
        × ((one_step p store).0
            ≡ (if wanted (store p) then (methods.send_cmd cmd (store p)).0 else true))
  unfolding one_step send_to assign
  one_step-here p store =
      let same : (p == p) ≡ true = ground arith in
      elim (Bool-cases (wanted (store p))) [
        | inl y ↦ rw (y, same) (refl, refl)
        | inr n ↦ rw n (refl, refl)
      ]

  all_sent-others :
      (p : ℕ) (ps : List ℕ) (store : ℕ → S)
      → member p ps ≡ false
      → all_sent ps (one_step p store).1 ≡ all_sent ps store
  all_sent-others p [] store h = refl
  all_sent-others p (r ∷ ps) store h = elim (Bool-cases (p == r)) [
    | inl y ↦
        let both : true ≡ false = sym (ap (λ b. if b then true else member p ps) y) ∙ h in
        absurd (cc)
    | inr n ↦
        let other : (r == p) ≡ false = ground arith in
        let rest : member p ps ≡ false = sym (ap (λ b. if b then true else member p ps) n) ∙ h in
        ap
          (λ s.
            (if wanted s then (methods.send_cmd cmd s).0 else true)
            && all_sent ps (one_step p store).1)
          (one_step-there p r store other)
        ∙ ap (λ b. (if wanted (store r) then (methods.send_cmd cmd (store r)).0 else true) && b)
            (all_sent-others p ps store rest)
  ]

  reached-others : (ps : List ℕ) (s t : ℕ → S) (q : ℕ) → s q ≡ t q → reached ps s q ≡ reached ps t q
  reached-others ps s t q e =
      ap (λ x. if member q ps then (if wanted x then (methods.send_cmd cmd x).1 else x) else x) e

  at_head :
      (p : ℕ) (ps : List ℕ) (store : ℕ → S)
      → Once (p ∷ ps)
      → (send_all methods wanted cmd ps (one_step p store).1).1 p
        ≡ reached ps (one_step p store).1 p
      → (send_all methods wanted cmd (p ∷ ps) store).1 p ≡ reached (p ∷ ps) store p
  unfolding send_all one_step
  at_head p ps store o there =
      let same : (p == p) ≡ true = ground arith in
      let alone : reached ps (one_step p store).1 p ≡ (one_step p store).1 p = rw (o.0) refl in
      let self : reached (p ∷ ps) store p
          ≡ (if wanted (store p) then (methods.send_cmd cmd (store p)).1 else store p) =
        rw same refl in
      there ∙ alone ∙ (one_step-here p store).0 ∙ sym self

  send_all-reached :
      (ps : List ℕ) (store : ℕ → S) (q : ℕ)
      → Once ps
      → ((send_all methods wanted cmd ps store).1 q ≡ reached ps store q)
        × ((send_all methods wanted cmd ps store).0 ≡ all_sent ps store)
  unfolding send_all one_step
  send_all-reached [] store q o = (refl, refl)
  send_all-reached (p ∷ ps) store q o =
      let (there, ok) = send_all-reached ps (one_step p store).1 q o.1 in
      let (here, sent) = one_step-here p store in
      (
        elim (Bool-cases (q == p)) [
          | inl y ↦
              subst
                (λ r. (send_all methods wanted cmd (p ∷ ps) store).1 r ≡ reached (p ∷ ps) store r)
                (sym ((==_iff q p).0 y))
                (at_head p ps store o (send_all-reached ps (one_step p store).1 p o.1).0)
          | inr n ↦
              rw n (
                there ∙ reached-others ps (one_step p store).1 store q (one_step-there p q store n))
        ],
        ap₂ ◌&&◌ sent (ok ∙ all_sent-others p ps store o.0),
      )

-- Where no task stands twice in the list, broadcast sends the command to each task of the list once,
-- broadcastByType to each of the type once, and neither to any other; each returns true exactly
-- when all these sends succeed.
pub broadcast-reached :
    {S : Type 0} (methods : Methods S) (type : ℕ) (cmd : List ℕ) (m : Manager S) (q : ℕ)
    → Once m.container
    → ((broadcast methods cmd m).1.store q ≡ reached methods (λ s. true) cmd m.container m.store q)
      × ((broadcast methods cmd m).0 ≡ all_sent methods (λ s. true) cmd m.container m.store)
      × ((broadcast_by_type methods type cmd m).1.store q
          ≡ reached methods (λ s. methods.get_type s == type) cmd m.container m.store q)
      × ((broadcast_by_type methods type cmd m).0
          ≡ all_sent methods (λ s. methods.get_type s == type) cmd m.container m.store)
unfolding broadcast broadcast_by_type
broadcast-reached methods type cmd m q o =
    let (a, b) = send_all-reached methods (λ s. true) cmd m.container m.store q o in
    let (c, d) =
      send_all-reached methods (λ s. methods.get_type s == type) cmd m.container m.store q o in
    (a, b, c, d)

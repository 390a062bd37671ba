-- ===== src/Server/Manager/Registry.antt =====
-- The map in which each server's number stands once, against a partial function from numbers.
use ugly_ff.Base.{
  ℕ, ◌≡◌, refl, ap, sym, subst, subst₂, ◌∙◌, inl, inr, true, false, Bool-cases, Option-cases, List,
  [], ◌∷◌, Option, none, some, if◌then◌else◌, ◌==◌, arith,
}
use ugly_ff.Server.Manager.{Methods, Manager, new_manager, find, erase, unique_add, unique_remove}

-- the calls on the map
pub data Reg : Type 0 where
  enters leaves : ℕ → Reg

-- no number stands twice
abbrev pub Distinct : List (ℕ × ℕ) → Type 0
Distinct [] = Unit {0}
Distinct ((k, p) ∷ rest) = (find k rest ≡ none) × Distinct rest

-- a partial function, changed at one number
abbrev pub change : ℕ → Option ℕ → (ℕ → Option ℕ) → ℕ → Option ℕ
change key v f id = if key == id then v else f id

-- a task asks for a number that `o` has
abbrev pub enter : ℕ → ℕ → Option ℕ → (ℕ → Option ℕ) → ℕ → Option ℕ
enter id p none f = change id (some p) f
enter id p (some q) f = f

find-head :
    (key k p : ℕ) (rest : List (ℕ × ℕ))
    → find key ((k, p) ∷ rest) ≡ (if k == key then some p else find key rest)
unfolding find
find-head key k p rest = refl

find-here :
    (key k p : ℕ) (rest : List (ℕ × ℕ)) → (k == key) ≡ true → find key ((k, p) ∷ rest) ≡ some p
find-here key k p rest e = find-head key k p rest ∙ ap (λ b. if b then some p else find key rest) e

find-there :
    (key k p : ℕ) (rest : List (ℕ × ℕ))
    → (k == key) ≡ false
    → find key ((k, p) ∷ rest) ≡ find key rest
find-there key k p rest e = find-head key k p rest ∙ ap (λ b. if b then some p else find key rest) e

find-erase :
    (key id : ℕ) (l : List (ℕ × ℕ))
    → Distinct l
    → find id (erase key l) ≡ change key none (λ i. find i l) id
unfolding erase
find-erase key id [] d = unfold find in ground arith
find-erase key id ((k, p) ∷ rest) d =
    let ih = find-erase key id rest d.1 in
    elim (Bool-cases (k == key)) [
      | inl y ↦ elim (Bool-cases (key == id)) [
        | inl z ↦
            let same : k ≡ id = ground arith in rw (y, z) (subst (λ i. find i rest ≡ none) same d.0)
        | inr z ↦
            let other : (k == id) ≡ false = ground arith in
            rw (y, z) (sym (find-there id k p rest other))
      ]
      | inr n ↦ elim (Bool-cases (k == id)) [
        | inl z ↦
            let other : (key == id) ≡ false = ground arith in
            rw (n, other) (find-here id k p (erase key rest) z ∙ sym (find-here id k p rest z))
        | inr z ↦
            let here : find id ((k, p) ∷ rest) ≡ find id rest = find-there id k p rest z in
            rw (n, here) (find-there id k p (erase key rest) z ∙ ih)
      ]
    ]

forgotten :
    (key k : ℕ) (l : List (ℕ × ℕ)) → find k l ≡ none → change key none (λ i. find i l) k ≡ none
forgotten key k l e = elim (Bool-cases (key == k)) [ inl y ↦ rw y refl | inr n ↦ rw n e ]

erase-Distinct : (key : ℕ) (l : List (ℕ × ℕ)) → Distinct l → Distinct (erase key l)
unfolding erase
erase-Distinct key [] d = tt
erase-Distinct key ((k, p) ∷ rest) d = elim (Bool-cases (k == key)) [
  | inl y ↦ rw y d.1
  | inr n ↦ rw n (find-erase key k rest d.1 ∙ forgotten key k rest d.0, erase-Distinct key rest d.1)
]

module _ {S : Type 0} (methods : Methods S) where
  -- the calls on a manager
  unfoldable pub run : List Reg → Manager S → Manager S
  run [] m = m
  run (enters p ∷ ops) m = run ops (unique_add methods p m).1
  run (leaves p ∷ ops) m = run ops (unique_remove methods p m).1

  -- the specification: who has which number
  unfoldable pub holders : List Reg → (ℕ → S) → (ℕ → Option ℕ) → ℕ → Option ℕ
  holders [] store f = f
  holders (enters p ∷ ops) store f =
      let id = methods.get_id (store p) in holders ops store (enter id p (f id) f)
  holders (leaves p ∷ ops) store f = holders ops store (change (methods.get_id (store p)) none f)

  unique_add-taken :
      (p : ℕ) (m : Manager S) {q : ℕ}
      → find (methods.get_id (m.store p)) m.unique_container ≡ some q
      → unique_add methods p m ≡ (false, m)
  unfolding unique_add
  unique_add-taken p m e = rw (unique_add, e) refl

  unique_add-free :
      (p : ℕ) (m : Manager S)
      → find (methods.get_id (m.store p)) m.unique_container ≡ none
      → unique_add methods p m ≡ (
        true,
        record m { unique_container = (methods.get_id (m.store p), p) ∷ m.unique_container },
      )
  unfolding unique_add
  unique_add-free p m e = rw (unique_add, e) refl

  -- The map of `n` holds each number once, and what the specification says.
  abbrev Agrees : List Reg → (ℕ → S) → Manager S → (ℕ → Option ℕ) → Type 0
  Agrees ops store n f =
      Distinct n.unique_container × ((id : ℕ) → find id n.unique_container ≡ holders ops store f id)

  run-holders :
      (ops : List Reg) (m : Manager S) (f : ℕ → Option ℕ)
      → Distinct m.unique_container
      → ((id : ℕ) → find id m.unique_container ≡ f id)
      → Agrees ops m.store (run ops m) f
  unfolding run holders unique_remove
  run-holders [] m f d h = (d, h)
  run-holders (leaves p ∷ ops) m f d h =
      let key = methods.get_id (m.store p) in
      run-holders ops (record m { unique_container = erase key m.unique_container })
        (change key none f) (erase-Distinct key m.unique_container d)
        (λ id.
          find-erase key id m.unique_container d ∙ ap (λ o. if key == id then none else o) (h id))
  run-holders (enters p ∷ ops) m f d h =
      let key = methods.get_id (m.store p) in
      elim (Option-cases (find key m.unique_container)) [
        | inr (q, e) ↦
            subst₂ (Agrees ops m.store) (sym (ap (λ r. run ops r.1) (unique_add-taken p m e)))
              (sym (ap (λ o. enter key p o f) (sym (h key) ∙ e))) (run-holders ops m f d h)
        | inl e ↦
            subst₂ (Agrees ops m.store) (sym (ap (λ r. run ops r.1) (unique_add-free p m e)))
              (sym (ap (λ o. enter key p o f) (sym (h key) ∙ e)))
              (run-holders ops (record m { unique_container = (key, p) ∷ m.unique_container })
                (change key (some p) f) (e, d)
                (λ id.
                  find-head id key p m.unique_container
                  ∙ ap (λ o. if key == id then some p else o) (h id)))
      ]

  -- After any calls of uniqueAdd and uniqueRemove on a new manager, no number stands twice in the
  -- map, and find gives for each number what the specification says: the first task that asked for
  -- it since it was last given back.
  pub run-registry :
      (ops : List Reg) (store : ℕ → S) (id : ℕ)
      → Distinct (run ops (new_manager store)).unique_container
        × (find id (run ops (new_manager store)).unique_container
            ≡ holders ops store (λ i. none) id)
  unfolding new_manager find
  run-registry ops store id =
      let (d, h) = run-holders ops (new_manager store) (λ i. none) tt (λ i. refl) in (d, h id)

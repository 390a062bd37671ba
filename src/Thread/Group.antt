-- ===== src/Thread/Group.antt =====
-- The array of a thread group.
use ugly_ff.Base.{
  ℕ, zero, suc, ◌≡◌, refl, ap, sym, ◌∙◌, inl, inr, true, false, Bool-cases, List, [], ◌∷◌, ◌++◌,
  Option, none, some, if◌then◌else◌, get_elem?, arith,
}
use ugly_ff.Thread.{ThreadGroup, same_pointer, has_thread, add_thread, get_by_index}

-- no pointer stands twice
abbrev pub Different : List (Option ℕ) → Type 0
Different [] = Unit {0}
Different (p ∷ ps) = (has_thread p ps ≡ false) × Different ps

-- threads added one after the other
unfoldable pub add_all : List (Option ℕ) → ThreadGroup → ThreadGroup
add_all [] g = g
add_all (p ∷ ps) g = add_all ps (add_thread p g)

same_pointer_sym : (p q : Option ℕ) → same_pointer p q ≡ same_pointer q p
unfolding same_pointer
same_pointer_sym none none = refl
same_pointer_sym none (some q) = refl
same_pointer_sym (some p) none = refl
same_pointer_sym (some p) (some q) = ground arith

has_thread-append :
    (p q : Option ℕ) (ps : List (Option ℕ))
    → has_thread p ps ≡ false
    → same_pointer q p ≡ false
    → has_thread p (ps ++ (q ∷ [])) ≡ false
unfolding has_thread
has_thread-append p q [] h e = rw e refl
has_thread-append p q (r ∷ ps) h e = elim (Bool-cases (same_pointer r p)) [
  | inl y ↦
      let both : true ≡ false = sym (ap (λ b. if b then true else has_thread p ps) y) ∙ h in
      absurd (cc)
  | inr n ↦
      rw n (has_thread-append p q ps (sym (ap (λ b. if b then true else has_thread p ps) n) ∙ h) e)
]

append-Different :
    (q : Option ℕ) (ps : List (Option ℕ))
    → has_thread q ps ≡ false
    → Different ps
    → Different (ps ++ (q ∷ []))
unfolding has_thread
append-Different q [] h d = (refl, tt)
append-Different q (r ∷ ps) h d = elim (Bool-cases (same_pointer r q)) [
  | inl y ↦
      let both : true ≡ false = sym (ap (λ b. if b then true else has_thread q ps) y) ∙ h in
      absurd (cc)
  | inr n ↦ (
    has_thread-append r q ps d.0 (same_pointer_sym q r ∙ n),
    append-Different q ps (sym (ap (λ b. if b then true else has_thread q ps) n) ∙ h) d.1,
  )
]

add_thread-Different :
    (p : Option ℕ) (g : ThreadGroup) → Different g.vts → Different (add_thread p g).vts
unfolding add_thread
add_thread-Different p g d = elim (Bool-cases (has_thread p g.vts)) [
  | inl y ↦ rw y d
  | inr n ↦ rw n (append-Different p g.vts n d)
]

get_elem?-append {ℓ} :
    {A : Type ℓ} (xs ys : List A) (i : ℕ) {x : A}
    → get_elem? xs i ≡ some x
    → get_elem? (xs ++ ys) i ≡ some x
get_elem?-append [] ys i e = absurd (cc)
get_elem?-append (x ∷ xs) ys zero e = e
get_elem?-append (x ∷ xs) ys (suc i) e = get_elem?-append xs ys i e

add_thread-index :
    (p : Option ℕ) (g : ThreadGroup) (i : ℕ) {q : Option ℕ}
    → get_elem? g.vts i ≡ some q
    → get_elem? (add_thread p g).vts i ≡ some q
unfolding add_thread
add_thread-index p g i e = elim (Bool-cases (has_thread p g.vts)) [
  | inl y ↦ rw y e
  | inr n ↦ rw n (get_elem?-append g.vts (p ∷ []) i e)
]

-- However many threads are added to a group in which no thread stands twice, none does afterwards,
-- and a thread that getByIndex finds at an index stays at that index.
pub add_all-Different :
    (ps : List (Option ℕ)) (g : ThreadGroup) (i : ℕ) {q : Option ℕ}
    → Different g.vts
    → get_elem? g.vts i ≡ some q
    → Different (add_all ps g).vts × (get_by_index i (add_all ps g) ≡ q)
unfolding add_all get_by_index
add_all-Different [] g i d e = (d, rw (get_by_index, e) refl)
add_all-Different (p ∷ ps) g i d e =
    add_all-Different ps (add_thread p g) i (add_thread-Different p g d) (add_thread-index p g i e)

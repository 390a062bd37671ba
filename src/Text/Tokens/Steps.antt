-- ===== src/Text/Tokens/Steps.antt =====
-- include/engine.h: how the searches of stringtok meet the division into words.
use ugly_ff.Base.{
  ℕ, suc, ◌<◌, ◌≡◌, refl, ap, ◌∙◌, inl, inr, Bool, true, false, not, [], ◌∷◌, ◌++◌, append_assoc,
  append-nil, Option, none, some, arith, Bool-cases, length, take, drop, ◌<◌,
}
use ugly_ff.Text.Case.{Text}
use ugly_ff.Text.Find.{among, first_where, next_place}
use ugly_ff.Text.Tokens.{Left, split_words, one_less, is_over}

next_place-none : (o : Option ℕ) → next_place o ≡ none → o ≡ none
next_place-none none h = refl
next_place-none (some p) h = cc

next_place-some :
    (q : ℕ) (o : Option ℕ) → next_place o ≡ some q → (p : ℕ) × (o ≡ some p) × (q ≡ suc p)
next_place-some q none h = cc
next_place-some q (some p) h = (p, refl, ground arith)

module _ (ds : Text) where
  abbrev pub other : ℕ → Bool
  other c = not (among ds c)

  -- Where there is nothing but delimiters there is no word.
  pub lead-none :
      (left : Left) (s : Text) → first_where other s ≡ none → split_words ds left [] s ≡ []
  unfolding first_where split_words
  lead-none left [] h = refl
  lead-none left (c ∷ s) h = elim (Bool-cases (among ds c)) [
    | inl delimiter ↦
        let skipped : next_place (first_where other s) ≡ none = ground arith in
        rw delimiter (lead-none left s (next_place-none _ skipped))
    | inr letter ↦ ground arith
  ]

  pub lead-some :
      (left : Left) (s : Text) (k : ℕ)
      → first_where other s ≡ some k
      → split_words ds left [] s ≡ split_words ds left [] (drop k s)
  unfolding first_where split_words
  lead-some left [] k h = cc
  lead-some left (c ∷ s) k h = elim (Bool-cases (among ds c)) [
    | inl delimiter ↦
        let found : next_place (first_where other s) ≡ some k = ground arith in
        let (p, at_p, shifted) = next_place-some k _ found in
        rw (delimiter, shifted) (lead-some left s p at_p)
    | inr letter ↦ let here : k ≡ 0 = ground arith in rw here
  ]

  -- What is found is a byte that is no delimiter.
  pub lead-start :
      (s : Text) (k : ℕ)
      → first_where other s ≡ some k
      → (c : ℕ) × (rest : Text) × (drop k s ≡ c ∷ rest) × (among ds c ≡ false)
  unfolding first_where
  lead-start [] k h = cc
  lead-start (c ∷ s) k h = elim (Bool-cases (among ds c)) [
    | inl delimiter ↦
        let found : next_place (first_where other s) ≡ some k = ground arith in
        let (p, at_p, shifted) = next_place-some k _ found in
        let (b, rest, cut, letter) = lead-start s p at_p in
        (b, rest, ap (λ (n : ℕ). drop n (c ∷ s)) shifted ∙ cut, letter)
    | inr letter ↦ let here : k ≡ 0 = ground arith in (c, s, rw here, letter)
  ]

  -- A word that no delimiter ends goes up to the end.
  pub word-none :
      (left : Left) (b : ℕ) (word s : Text)
      → first_where (among ds) s ≡ none
      → split_words ds left (b ∷ word) s ≡ (b ∷ word ++ s) ∷ []
  unfolding first_where split_words
  word-none left b word [] h = rw append-nil
  word-none left b word (c ∷ s) h = elim (Bool-cases (among ds c)) [
    | inl delimiter ↦ ground arith
    | inr letter ↦
        let unseen : next_place (first_where (among ds) s) ≡ none = ground arith in
        rw letter (word-none left b (word ++ c ∷ []) s (next_place-none _ unseen) ∙ rw append_assoc)
  ]

  -- A word ends at the first delimiter, which is left out.
  pub word-some :
      (left : Left) (b : ℕ) (word s : Text) (p : ℕ)
      → first_where (among ds) s ≡ some p
      → split_words ds left (b ∷ word) s
        ≡ (b ∷ word ++ take p s) ∷ split_words ds (one_less left) [] (drop (suc p) s)
  unfolding first_where split_words
  word-some left b word [] p h = cc
  word-some left b word (c ∷ s) p h = elim (Bool-cases (among ds c)) [
    | inl delimiter ↦ let here : p ≡ 0 = ground arith in rw (here, delimiter, append-nil)
    | inr letter ↦
        let found : next_place (first_where (among ds) s) ≡ some p = ground arith in
        let (q, at_q, shifted) = next_place-some p _ found in
        rw (letter, shifted) (word-some left b (word ++ c ∷ []) s q at_q ∙ rw append_assoc)
  ]

  -- The first byte of a word, where cutting goes on or is over.
  pub start-goes_on :
      (left : Left) (c : ℕ) (s : Text)
      → among ds c ≡ false
      → is_over left ≡ false
      → split_words ds left [] (c ∷ s) ≡ split_words ds left (c ∷ []) s
  unfolding split_words
  start-goes_on left c s letter more = rw (letter, more)

  pub start-is_over :
      (left : Left) (c : ℕ) (s : Text)
      → among ds c ≡ false
      → is_over left ≡ true
      → split_words ds left [] (c ∷ s) ≡ (c ∷ s) ∷ []
  unfolding split_words
  start-is_over left c s letter over = rw (letter, over)

pub first_where-lt :
    (test : ℕ → Bool) (s : Text) (p : ℕ) → first_where test s ≡ some p → p < length s
unfolding first_where
first_where-lt test [] p h = cc
first_where-lt test (c ∷ s) p h = elim (Bool-cases (test c)) [
  | inl passes ↦ let here : p ≡ 0 = ground arith in omega arith
  | inr fails ↦
      let found : next_place (first_where test s) ≡ some p = ground arith in
      further (first_where-lt test s) (next_place-some p _ found)
]
  where
    further :
        ((q : ℕ) → first_where test s ≡ some q → q < length s)
        → (q : ℕ) × (first_where test s ≡ some q) × (p ≡ suc q)
        → p < suc (length s)
    further ih (q, at_q, shifted) = let below = ih q at_q in omega (arith, below, shifted)

-- ===== src/Text/Tokens/Split.antt =====
-- include/engine.h: stringtok against the division into words.
use ugly_ff.Base.{
  ℕ, zero, suc, ◌+◌, ◌-◌, ◌≤◌, ◌<◌, ◌≡◌, refl, sym, subst, ap, ◌∙◌, inl, inr, true, false, List, [],
  ◌∷◌, ◌++◌, ◌&&◌, append_assoc, append-nil, Option, none, some, arith, Bool-cases, length, take,
  drop, ltb, drop_all, length-drop,
}
use ugly_ff.Text.Case.{Text}
use ugly_ff.Text.Find.{
  among, first_where, later, next_place, drop-drop, find_first_of, find_first_not_of,
}
use ugly_ff.Text.Tokens.{
  Left, split_words, one_less, is_over, limit, Turn, returns, goes_on, cut_token, begin_token,
  token_turn, token_loop, stringtok,
}
use ugly_ff.Text.Tokens.Steps.{
  other, lead-none, lead-some, lead-start, word-none, word-some, start-goes_on, start-is_over,
  first_where-lt,
}

past-is_over : (deep count : ℕ) → (ltb 0 deep && ltb deep (count + 1)) ≡ is_over (limit deep count)
past-is_over zero count = refl
past-is_over (suc d) count = ground arith

one_less-limit : (deep count : ℕ) → one_less (limit deep count) ≡ limit deep (count + 1)
one_less-limit zero count = refl
one_less-limit (suc d) count = ground arith

module _ (s ds : Text) (deep : ℕ) where
  -- the container with the words that a turn has still to put there
  abbrev outcome : Turn → List Text
  outcome (returns container) = container
  outcome (goes_on i count container) = container ++ split_words ds (limit deep count) [] (drop i s)

  -- The loop moves on, and not beyond the end.
  abbrev Moves : ℕ → Turn → Type 0
  Moves i (returns container) = Unit
  Moves i (goes_on next count container) = (i < next) × (next ≤ length s)

  module _ (count i : ℕ) (container : List Text) (c : ℕ) (rest : Text) (here : drop i s ≡ c ∷ rest)
      (letter : among ds c ≡ false) where
    left : Left
    left = limit deep count

    rest_whole :
        is_over left ≡ true
        → container ++ drop i s ∷ [] ≡ container ++ split_words ds left [] (c ∷ rest)
    unfolding left
    rest_whole over =
        rw here (ap (λ t. container ++ t) (sym (start-is_over ds left c rest letter over)))

    last_word :
        first_where (among ds) rest ≡ none
        → container ++ drop i s ∷ [] ≡ container ++ split_words ds left [] (c ∷ rest)
    last_word unseen = elim (Bool-cases (is_over left)) [
      | inl over ↦ rest_whole over
      | inr more ↦ rw here (
          ap (λ t. container ++ t)
            (sym (start-goes_on ds left c rest letter more ∙ word-none ds left c [] rest unseen)))
    ]

    next_word :
        (p : ℕ)
        → first_where (among ds) rest ≡ some p
        → is_over left ≡ false
        → (container ++ take (suc p) (drop i s) ∷ [])
            ++ split_words ds (one_less left) [] (drop (suc (suc p)) (drop i s))
          ≡ container ++ split_words ds left [] (c ∷ rest)
    next_word p found more = rw here (
        append_assoc container (take (suc p) (c ∷ rest) ∷ [])
          (split_words ds (one_less left) [] (drop (suc p) rest))
        ∙ ap (λ t. container ++ t)
            (sym (start-goes_on ds left c rest letter more ∙ word-some ds left c [] rest p found)))

    cut-outcome :
        (o : Option ℕ)
        → first_where (among ds) rest ≡ o
        → outcome (cut_token s deep (count + 1) i container (later i (next_place o)))
          ≡ container ++ split_words ds (limit deep count) [] (c ∷ rest)
    unfolding left cut_token
    cut-outcome none found = last_word found
    cut-outcome (some p) found = elim (Bool-cases (is_over left)) [
      | inl over ↦ rw (past-is_over deep count ∙ over) (rest_whole over)
      | inr more ↦
          let width : i + suc p - i ≡ suc p = omega arith in
          let place : i + suc p + 1 ≡ i + suc (suc p) = omega arith in
          rw
            (
              past-is_over deep count ∙ more,
              width,
              place,
              ← drop-drop i (suc (suc p)) s,
              ← one_less-limit deep count,
            )
            (next_word p found more)
    ]

    cut-Moves :
        (o : Option ℕ)
        → first_where (among ds) rest ≡ o
        → Moves i (cut_token s deep (count + 1) i container (later i (next_place o)))
    unfolding cut_token
    cut-Moves none found = tt
    cut-Moves (some p) found = elim (Bool-cases (ltb 0 deep && ltb deep (count + 1))) [
      | inl over ↦ rw over tt
      | inr more ↦
          let size : length s - i ≡ suc (length rest) = sym (length-drop i s) ∙ ap length here in
          rw more (omega arith, omega (arith, size, first_where-lt (among ds) rest p found))
    ]

  find-next :
      (i c : ℕ) (rest : Text)
      → drop i s ≡ c ∷ rest
      → among ds c ≡ false
      → find_first_of s ds i ≡ later i (next_place (first_where (among ds) rest))
  unfolding find_first_of first_where
  find-next i c rest here letter = rw (here, letter)

  module _ (count i : ℕ) (container : List Text) where
    begin-outcome :
        (o : Option ℕ)
        → first_where (other ds) (drop i s) ≡ o
        → outcome (begin_token s ds deep count container (later i o))
          ≡ container ++ split_words ds (limit deep count) [] (drop i s)
    unfolding begin_token
    begin-outcome none found =
        rw (lead-none ds (limit deep count) (drop i s) found) (sym (append-nil _))
    begin-outcome (some k) found =
        let (c, rest, cut, letter) = lead-start ds (drop i s) k found in
        let here : drop (i + k) s ≡ c ∷ rest = sym (drop-drop i k s) ∙ cut in
        let words = lead-some ds (limit deep count) (drop i s) k found in
        ap (λ o. outcome (cut_token s deep (count + 1) (i + k) container o))
          (find-next (i + k) c rest here letter)
        ∙ cut-outcome count (i + k) container c rest here letter _ refl
        ∙ ap (λ t. container ++ t) (sym (words ∙ ap (split_words ds (limit deep count) []) cut))

    begin-Moves :
        (o : Option ℕ)
        → first_where (other ds) (drop i s) ≡ o
        → Moves i (begin_token s ds deep count container (later i o))
    unfolding begin_token
    begin-Moves none found = tt
    begin-Moves (some k) found =
        let (c, rest, cut, letter) = lead-start ds (drop i s) k found in
        let here : drop (i + k) s ≡ c ∷ rest = sym (drop-drop i k s) ∙ cut in
        weaken _ (
          subst (λ o. Moves (i + k) (cut_token s deep (count + 1) (i + k) container o))
            (sym (find-next (i + k) c rest here letter))
            (cut-Moves count (i + k) container c rest here letter _ refl))
      where
        weaken : (t : Turn) → Moves (i + k) t → Moves i t
        weaken (returns c) m = tt
        weaken (goes_on next n c) m = (omega arith, omega arith)

    turn-outcome :
        outcome (token_turn s ds deep count i container)
        ≡ container ++ split_words ds (limit deep count) [] (drop i s)
    unfolding token_turn find_first_not_of split_words
    turn-outcome = elim (Bool-cases (ltb i (length s))) [
      | inl inside ↦ rw inside (begin-outcome _ refl)
      | inr outside ↦ rw (outside, drop_all i s (ground arith)) (sym (append-nil _))
    ]

    turn-Moves : Moves i (token_turn s ds deep count i container)
    unfolding token_turn find_first_not_of
    turn-Moves = elim (Bool-cases (ltb i (length s))) [
      | inl inside ↦ rw inside (begin-Moves _ refl)
      | inr outside ↦ rw outside tt
    ]

  -- From a turn on, a round more than there are bytes left is enough.
  abbrev Enough : ℕ → Turn → Type 0
  Enough fuel (returns container) = Unit
  Enough fuel (goes_on i count container) = (length s < i + fuel) × (i ≤ length s)

  Moves-Enough : (fuel i : ℕ) (t : Turn) → length s < i + suc fuel → Moves i t → Enough fuel t
  Moves-Enough fuel i (returns c) h m = tt
  Moves-Enough fuel i (goes_on next n c) h m = (omega arith, omega arith)

  loop-outcome :
      (fuel : ℕ) (t : Turn) → Enough fuel t → token_loop s ds deep fuel t ≡ some (outcome t)
  unfolding token_loop
  loop-outcome zero (returns c) e = refl
  loop-outcome (suc fuel) (returns c) e = refl
  loop-outcome zero (goes_on i count c) e = absurd (omega arith)
  loop-outcome (suc fuel) (goes_on i count c) e =
      loop-outcome fuel _ (Moves-Enough fuel i _ e.0 (turn-Moves count i c))
      ∙ ap some (turn-outcome count i c)

  -- stringtok always returns: it puts the text's words behind what is in the container, in order.
  -- These are the longest runs of bytes that are no delimiters; with a `deep` above 0, that many
  -- are cut off, and what is left from the next one on is taken whole.
  pub stringtok-split_words :
      (container : List Text)
      → stringtok container s ds deep ≡ some (container ++ split_words ds (limit deep 0) [] s)
  unfolding stringtok
  stringtok-split_words container =
      loop-outcome (length s + 1) (goes_on 0 0 container) (omega arith, omega arith)

-- ===== src/Text/Tokens.antt =====
-- include/engine.h: stringtok, and the division into words that it makes.
mod Steps
pub mod Split
pub mod Join
use ugly_ff.Base.{
  ℕ, zero, suc, ◌+◌, ◌-◌, Bool, ◌&&◌, List, [], ◌∷◌, ◌++◌, Option, none, some, ltb, leb,
  if◌then◌else◌, length, drop,
}
use ugly_ff.Text.Case.{Text}
use ugly_ff.Text.Find.{among, find_first_of, find_first_not_of, substr}

-- Where the loop goes: it returns with the container, or goes on at a position with the count.
pub data Turn : Type 0 where
  returns : List Text → Turn
  goes_on : ℕ → ℕ → List Text → Turn

-- from `find_first_of` on, where the token begins at `i`; `count` has this token
unfoldable pub cut_token : Text → ℕ → ℕ → ℕ → List Text → Option ℕ → Turn
unfolding substr
cut_token s deep count i container none = returns (container ++ drop i s ∷ [])
cut_token s deep count i container (some pos) =
    if ltb 0 deep && ltb deep count
    then returns (container ++ drop i s ∷ [])
    else goes_on (pos + 1) count (container ++ substr s i (pos - i) ∷ [])

-- from `find_first_not_of` on
unfoldable pub begin_token : Text → Text → ℕ → ℕ → List Text → Option ℕ → Turn
unfolding cut_token find_first_of
begin_token s delimiters deep count container none = returns container
begin_token s delimiters deep count container (some i) =
    cut_token s deep (count + 1) i container (find_first_of s delimiters i)

-- one round of the loop at the position `i`, with its test
unfoldable pub token_turn : Text → Text → ℕ → ℕ → ℕ → List Text → Turn
unfolding begin_token find_first_not_of
token_turn s delimiters deep count i container =
    if ltb i (length s)
    then begin_token s delimiters deep count container (find_first_not_of s delimiters i)
    else returns container

-- the while loop; `none` is fuel that ran out
unfoldable pub token_loop : Text → Text → ℕ → ℕ → Turn → Option (List Text)
unfolding token_turn
token_loop s delimiters deep fuel (returns container) = some container
token_loop s delimiters deep zero (goes_on i count container) = none
token_loop s delimiters deep (suc fuel) (goes_on i count container) =
    token_loop s delimiters deep fuel (token_turn s delimiters deep count i container)

-- stringtok. Each round moves at least one byte on, so one round more than there are bytes is
-- enough. A `deep` below 0 is as 0.
unfoldable pub stringtok : List Text → Text → Text → ℕ → Option (List Text)
unfolding token_loop
stringtok container s delimiters deep =
    token_loop s delimiters deep (length s + 1) (goes_on 0 0 container)

-- How many tokens are still to be cut off before the rest is taken whole.
pub data Left : Type 0 where
  all : Left
  at_most : ℕ → Left

abbrev pub one_less : Left → Left
one_less all = all
one_less (at_most n) = at_most (n - 1)

abbrev pub is_over : Left → Bool
is_over all = Bool.false
is_over (at_most n) = leb n 0

-- The words of a text, byte by byte: `word` is what has been read of the current one.
unfoldable pub split_words : Text → Left → Text → Text → List Text
unfolding among
split_words delimiters left [] [] = []
split_words delimiters left (b ∷ word) [] = (b ∷ word) ∷ []
split_words delimiters left [] (c ∷ s) =
    let skip = split_words delimiters left [] s in
    let start = split_words delimiters left (c ∷ []) s in
    if among delimiters c then skip else if is_over left then (c ∷ s) ∷ [] else start
split_words delimiters left (b ∷ word) (c ∷ s) =
    let ends = (b ∷ word) ∷ split_words delimiters (one_less left) [] s in
    let grows = split_words delimiters left (b ∷ word ++ c ∷ []) s in
    if among delimiters c then ends else grows

abbrev pub limit : ℕ → ℕ → Left
limit zero count = all
limit (suc d) count = at_most (suc d - count)

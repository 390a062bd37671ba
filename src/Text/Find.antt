-- ===== src/Text/Find.antt =====
-- The searches and cuts of std::string that the helpers use, and what they find.
use ugly_ff.Base.{
  ℕ, zero, suc, ◌+◌, ◌≡◌, refl, sym, ◌∙◌, Bool, true, false, not, ◌&&◌, ◌||◌, [], ◌∷◌, Option, none,
  some, arith, ◌==◌, if◌then◌else◌, take, drop,
}
use ugly_ff.Text.Case.{Text}

-- one more than a position that was found
abbrev pub later : ℕ → Option ℕ → Option ℕ
later k none = none
later k (some p) = some (k + p)

abbrev pub next_place : Option ℕ → Option ℕ
next_place none = none
next_place (some p) = some (suc p)

-- the first position whose byte passes the test
unfoldable pub first_where : (ℕ → Bool) → Text → Option ℕ
first_where test [] = none
first_where test (c ∷ s) = if test c then some 0 else next_place (first_where test s)

-- whether a byte is one of the delimiters
unfoldable pub among : Text → ℕ → Bool
among [] c = false
among (d ∷ ds) c = d == c || among ds c

-- in.find_first_of(delimiters, i) and in.find_first_not_of(delimiters, i); `none` is npos
unfoldable pub find_first_of : Text → Text → ℕ → Option ℕ
unfolding first_where among
find_first_of s ds i = later i (first_where (among ds) (drop i s))

unfoldable pub find_first_not_of : Text → Text → ℕ → Option ℕ
unfolding first_where among
find_first_not_of s ds i = later i (first_where (λ c. not (among ds c)) (drop i s))

-- in.substr(i, n), for a position that is not beyond the end
unfoldable pub substr : Text → ℕ → ℕ → Text
substr s i n = take n (drop i s)

drop-nil : (i : ℕ) → drop {A = ℕ} i [] ≡ []
drop-nil zero = refl
drop-nil (suc i) = refl

pub drop-drop : (i k : ℕ) (s : Text) → drop k (drop i s) ≡ drop (i + k) s
drop-drop zero k s = ground arith
drop-drop (suc i) k [] = drop-nil k ∙ sym (drop-nil (suc i + k))
drop-drop (suc i) k (c ∷ s) =
    let e : suc i + k ≡ suc (i + k) = omega arith in rw e (drop-drop i k s)

unfoldable pub starts_with : Text → Text → Bool
starts_with [] s = true
starts_with (c ∷ p) [] = false
starts_with (c ∷ p) (d ∷ s) = c == d && starts_with p s

-- s.find(pattern)
unfoldable pub find_text : Text → Text → Option ℕ
unfolding starts_with
find_text [] pattern = if starts_with pattern [] then some 0 else none
find_text (c ∷ s) pattern =
    if starts_with pattern (c ∷ s) then some 0 else next_place (find_text s pattern)

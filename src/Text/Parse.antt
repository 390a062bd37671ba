-- ===== src/Text/Parse.antt =====
-- include/engine.h: Parse, which cuts a text in two at a separator.
use ugly_ff.Base.{
  ℕ, suc, ◌+◌, ◌≤◌, ◌≡◌, refl, sym, ap, ap₂, ◌≢◌, inl, inr, true, false, [], ◌∷◌, ◌++◌, Option,
  none, some, arith, ==_iff, ◌==◌, Bool-cases, length, take, drop, length-take,
}
use ugly_ff.Text.Case.{Text}
use ugly_ff.Text.Find.{find_text, starts_with, substr, next_place}

-- The object that is made is its two arguments; `none` is NULL.
unfoldable pub cut_at : Text → Text → Option ℕ → Option (Text × Text)
unfolding substr
cut_at down separator_down none = none
cut_at down separator_down (some pos) =
    some (substr down 0 pos, substr down pos (pos + length separator_down))

-- Parse::operator()
unfoldable pub parse : Text → Text → Option (Text × Text)
unfolding cut_at find_text
parse down separator_down = cut_at down separator_down (find_text down separator_down)

starts_with-append : (p s : Text) → starts_with p (p ++ s) ≡ true
unfolding starts_with
starts_with-append [] s = refl
starts_with-append (c ∷ p) s = rw ((==_iff c c).1 refl) (starts_with-append p s)

starts_with-splits : (p s : Text) → starts_with p s ≡ true → s ≡ p ++ drop (length p) s
unfolding starts_with
starts_with-splits [] s h = refl
starts_with-splits (c ∷ p) [] h = cc
starts_with-splits (c ∷ p) (d ∷ s) h = elim (Bool-cases (c == d)) [
  | inl same ↦
      let tail : starts_with p s ≡ true = ground arith in
      ap₂ ◌∷◌ (sym ((==_iff c d).0 same)) (starts_with-splits p s tail)
  | inr differ ↦ ground arith
]

-- where a pattern stands in a text
pub record FirstAt (s pattern : Text) (pos : ℕ) : Type 0 where
  pub rest : Text
  pub inside : pos ≤ length s
  pub splits : s ≡ take pos s ++ (pattern ++ rest)
  pub behind : drop pos s ≡ pattern ++ rest
  pub is_first : (a b : Text) → s ≡ a ++ (pattern ++ b) → pos ≤ length a

abbrev pub Finds : Text → Text → Option ℕ → Type 0
Finds s pattern none = (a b : Text) → s ≢ a ++ (pattern ++ b)
Finds s pattern (some pos) = FirstAt s pattern pos

not_here : (s p : Text) → starts_with p s ≡ false → (b : Text) → s ≢ p ++ b
not_here s p h b e = cc (starts_with-append p b)

FirstAt-zero : (s pattern : Text) → starts_with pattern s ≡ true → FirstAt s pattern 0
FirstAt-zero s pattern h = record {
  rest = drop (length pattern) s;
  inside = omega arith;
  splits = starts_with-splits pattern s h;
  behind = starts_with-splits pattern s h;
  is_first = λ a b e. omega arith;
}

nowhere_in_nil : (pattern : Text) → starts_with pattern [] ≡ false → Finds [] pattern none
nowhere_in_nil pattern h [] b e = not_here [] pattern h b e
nowhere_in_nil pattern h (x ∷ a) b e = cc

module _ (c : ℕ) (s pattern : Text) (h : starts_with pattern (c ∷ s) ≡ false) where
  nowhere-cons : Finds s pattern none → Finds (c ∷ s) pattern none
  nowhere-cons none_in [] b e = not_here (c ∷ s) pattern h b e
  nowhere-cons none_in (x ∷ a) b e = none_in a b (cc)

  later_first :
      (pos : ℕ)
      → FirstAt s pattern pos
      → (a b : Text) → c ∷ s ≡ a ++ (pattern ++ b)
      → suc pos ≤ length a
  later_first pos f [] b e = absurd (not_here (c ∷ s) pattern h b e)
  later_first pos f (x ∷ a) b e =
      let tail : s ≡ a ++ (pattern ++ b) = cc in omega (arith, f.is_first a b tail)

  Finds-cons : (o : Option ℕ) → Finds s pattern o → Finds (c ∷ s) pattern (next_place o)
  Finds-cons none f = nowhere-cons f
  Finds-cons (some pos) f = record {
    rest = f.rest;
    inside = omega (arith, f.inside);
    splits = ap (◌∷◌ c) f.splits;
    behind = f.behind;
    is_first = later_first pos f;
  }

pub find_text-Finds : (s pattern : Text) → Finds s pattern (find_text s pattern)
unfolding find_text
find_text-Finds [] pattern = elim (Bool-cases (starts_with pattern [])) [
  | inl here ↦ rw here (FirstAt-zero [] pattern here)
  | inr gone ↦ rw gone (nowhere_in_nil pattern gone)
]
find_text-Finds (c ∷ s) pattern = elim (Bool-cases (starts_with pattern (c ∷ s))) [
  | inl here ↦ rw here (FirstAt-zero (c ∷ s) pattern here)
  | inr gone ↦
      rw gone (Finds-cons c s pattern gone (find_text s pattern) (find_text-Finds s pattern))
]

take-behind : (p r : Text) (n : ℕ) → take (n + length p) (p ++ r) ≡ p ++ take n r
take-behind [] r n = ap (λ (k : ℕ). take k r) (omega arith)
take-behind (c ∷ p) r n =
    let e : n + length (c ∷ p) ≡ suc (n + length p) = omega arith in
    rw e (ap (◌∷◌ c) (take-behind p r n))

-- what Parse gives: the text before the first separator; and the separator, followed by as many
-- bytes of what comes behind it as the first text has
abbrev pub ParseSays : Text → Text → Option (Text × Text) → Type 0
ParseSays down separator none = (a b : Text) → down ≢ a ++ (separator ++ b)
ParseSays down separator (some (first, second)) =
    (rest : Text) × (down ≡ first ++ (separator ++ rest))
    × (second ≡ separator ++ take (length first) rest)
    × ((a b : Text) → down ≡ a ++ (separator ++ b) → length first ≤ length a)

cut_at-ParseSays :
    (down separator : Text) (o : Option ℕ)
    → Finds down separator o
    → ParseSays down separator (cut_at down separator o)
unfolding cut_at
cut_at-ParseSays down separator none f = f
cut_at-ParseSays down separator (some pos) f =
    let size : length (take pos down) ≡ pos = omega (arith, length-take pos down, f.inside) in
    (f.rest, f.splits, rw (f.behind, size) (take-behind separator f.rest pos), rw size f.is_first)

-- Parse gives NULL exactly where the separator stands nowhere in the text. Otherwise its first
-- text is what stands before the first separator, but its second is not what stands behind it: it
-- is the separator, followed by as many bytes of the rest as the first text has.
pub parse-ParseSays : (down separator : Text) → ParseSays down separator (parse down separator)
unfolding parse
parse-ParseSays down separator =
    cut_at-ParseSays down separator (find_text down separator) (find_text-Finds down separator)

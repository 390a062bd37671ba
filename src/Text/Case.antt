-- ===== src/Text/Case.antt =====
-- include/engine.h: ToLower, ToUpper, to_lower and to_upper, in the "C" locale, which the program
-- does not leave.
use ugly_ff.Base.{
  ℕ, ◌+◌, ◌-◌, ◌≡◌, refl, ap₂, Bool, ◌&&◌, List, [], ◌∷◌, map, arith, leb, ◌==◌, if◌then◌else◌,
}

abbrev pub Text : Type 0
Text = List ℕ

abbrev is_lower : ℕ → Bool
is_lower c = leb b'a' c && leb c b'z'

abbrev is_upper : ℕ → Bool
is_upper c = leb b'A' c && leb c b'Z'

-- ToLower::operator()
unfoldable pub lower : ℕ → ℕ
lower c = if is_upper c then c + 32 else c

-- ToUpper::operator()
unfoldable pub upper : ℕ → ℕ
upper c = if is_lower c then c - 32 else c

unfoldable pub to_lower : Text → Text
unfolding lower
to_lower s = map lower s

unfoldable pub to_upper : Text → Text
unfolding upper
to_upper s = map upper s

upper-lower : (c : ℕ) → upper (lower c) ≡ upper c
unfolding upper lower
upper-lower c = ground arith

upper_idem : (c : ℕ) → upper (upper c) ≡ upper c
unfolding upper
upper_idem c = ground arith

-- Lower case forgets nothing that upper case keeps.
pub to_upper-to_lower : (s : Text) → to_upper (to_lower s) ≡ to_upper s
unfolding to_upper to_lower
to_upper-to_lower [] = refl
to_upper-to_lower (c ∷ s) = ap₂ ◌∷◌ (upper-lower c) (to_upper-to_lower s)

pub to_upper_idem : (s : Text) → to_upper (to_upper s) ≡ to_upper s
unfolding to_upper
to_upper_idem [] = refl
to_upper_idem (c ∷ s) = ap₂ ◌∷◌ (upper_idem c) (to_upper_idem s)

-- std::string's operator==
unfoldable pub text_eq : Text → Text → Bool
text_eq [] [] = Bool.true
text_eq [] (d ∷ t) = Bool.false
text_eq (c ∷ s) [] = Bool.false
text_eq (c ∷ s) (d ∷ t) = c == d && text_eq s t

pub text_eq_refl : (s : Text) → text_eq s s ≡ Bool.true
unfolding text_eq
text_eq_refl [] = refl
text_eq_refl (c ∷ s) = ground (arith, text_eq_refl s)

pub text_eq_sound : (s t : Text) → text_eq s t ≡ Bool.true → s ≡ t
unfolding text_eq
text_eq_sound [] [] h = refl
text_eq_sound [] (d ∷ t) h = ground arith
text_eq_sound (c ∷ s) [] h = ground arith
text_eq_sound (c ∷ s) (d ∷ t) h = ground (arith, text_eq_sound s t)

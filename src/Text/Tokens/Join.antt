-- ===== src/Text/Tokens/Join.antt =====
-- include/engine.h: stringtok undoes the joining of words.
use ugly_ff.Base.{
  ℕ, sym, ◌≡◌, refl, ap, ◌∙◌, false, true, List, [], ◌∷◌, ◌++◌, append_assoc, append-nil, some, All,
}
use ugly_ff.Text.Case.{Text}
use ugly_ff.Text.Find.{among}
use ugly_ff.Text.Tokens.{all, split_words, stringtok}
use ugly_ff.Text.Tokens.Split.{stringtok-split_words}

-- the words with the delimiter between them
pub join : ℕ → List Text → Text
join d [] = []
join d (w ∷ []) = w
join d (w ∷ v ∷ words) = w ++ d ∷ join d (v ∷ words)

-- a word without delimiters that is not empty
abbrev pub IsWord : Text → Text → Type 0
IsWord ds [] = ⊥
IsWord ds (b ∷ w) = (among ds b ≡ false) × All (λ c. among ds c ≡ false) w

module _ (ds : Text) where
  word_grows :
      (b : ℕ) (word w rest : Text)
      → All (λ c. among ds c ≡ false) w
      → split_words ds all (b ∷ word) (w ++ rest) ≡ split_words ds all (b ∷ word ++ w) rest
  unfolding split_words
  word_grows b word [] rest letters =
      ap (λ (t : Text). split_words ds all (b ∷ t) rest) (sym (append-nil word))
  word_grows b word (c ∷ w) rest (letter, letters) = rw letter (
      word_grows b (word ++ c ∷ []) w rest letters
      ∙ ap (λ (t : Text). split_words ds all (b ∷ t) rest) (append_assoc word (c ∷ []) w))

  word_read :
      (w rest : Text) → IsWord ds w → split_words ds all [] (w ++ rest) ≡ split_words ds all w rest
  unfolding split_words
  word_read [] rest h = elim h [ ]
  word_read (b ∷ w) rest (letter, letters) = rw letter (word_grows b [] w rest letters)

  word_stops :
      (w : Text) (d : ℕ) (rest : Text)
      → IsWord ds w
      → among ds d ≡ true
      → split_words ds all w (d ∷ rest) ≡ w ∷ split_words ds all [] rest
  unfolding split_words
  word_stops [] d rest h cut = elim h [ ]
  word_stops (b ∷ w) d rest h cut = rw cut

  whole : (w : Text) → IsWord ds w → split_words ds all w [] ≡ w ∷ []
  unfolding split_words
  whole [] h = elim h [ ]
  whole (b ∷ w) h = refl

  split_words-join :
      (d : ℕ) (words : List Text)
      → among ds d ≡ true
      → All (IsWord ds) words
      → split_words ds all [] (join d words) ≡ words
  unfolding split_words join
  split_words-join d [] cut h = refl
  split_words-join d (w ∷ []) cut (h, _) =
      ap (split_words ds all []) (sym (append-nil w)) ∙ word_read w [] h ∙ whole w h
  split_words-join d (w ∷ v ∷ words) cut (h, hs) =
      word_read w _ h ∙ word_stops w d _ h cut ∙ ap (◌∷◌ w) (split_words-join d (v ∷ words) cut hs)

  -- Where words that are not empty and hold no delimiter are joined by a delimiter, stringtok gives
  -- back exactly these words.
  pub stringtok-join :
      (d : ℕ) (words : List Text)
      → among ds d ≡ true
      → All (IsWord ds) words
      → stringtok [] (join d words) ds 0 ≡ some words
  stringtok-join d words cut h =
      stringtok-split_words (join d words) ds 0 [] ∙ ap some (split_words-join d words cut h)

-- ===== src/Memory.antt =====
-- A block of bytes in memory, and the libc routines memcpy and memmove that the code calls on it
-- (the macros bcopy_ and bzero_ of include/macro.h expand to these).
use ugly_ff.Base.{
  ℕ, zero, suc, ◌+◌, ◌-◌, ◌≤◌, ◌<◌, ◌≡◌, refl, ap, ap₂, ◌∙◌, ◌&&◌, List, [], ◌∷◌, ◌++◌, arith, ltb,
  leb, ◌==◌, if◌then◌else◌, length, drop, take, get_or,
}

-- What each address holds; the addresses in use are bounded by the owner of the block.
abbrev pub Cells : Type 0
Cells = ℕ → ℕ

unfoldable pub zeroed : Cells
zeroed i = 0

-- memcpy(m + at, bytes, length bytes)
unfoldable pub memcpy : Cells → ℕ → List ℕ → Cells
memcpy m start [] i = m i
memcpy m start (x ∷ xs) i = if i == start then x else memcpy m (suc start) xs i

-- memmove(m + to, m + from, n), correct when the two ranges overlap
unfoldable pub memmove : Cells → ℕ → ℕ → ℕ → Cells
memmove m to from n i = if leb to i && ltb i (to + n) then m (from + (i - to)) else m i

-- std::vector::resize to a larger size: the new cells are zero.
unfoldable pub resize : Cells → ℕ → Cells
resize m old i = if ltb i old then m i else 0

-- the `n` bytes at address `a`
abbrev pub window : Cells → ℕ → ℕ → List ℕ
window m a zero = []
window m a (suc n) = m a ∷ window m (suc a) n

pub length-window : (m : Cells) (a n : ℕ) → length (window m a n) ≡ n
length-window m a zero = refl
length-window m a (suc n) = ap suc (length-window m (suc a) n)

-- Two blocks that agree on a range have one window there.
pub window_congr :
    (m m' : Cells) (a b n : ℕ)
    → ((i : ℕ) → i < n → m (a + i) ≡ m' (b + i))
    → window m a n ≡ window m' b n
window_congr m m' a b zero h = refl
window_congr m m' a b (suc n) h = ap₂ ◌∷◌ here (window_congr m m' (suc a) (suc b) n later)
  where
    here : m a ≡ m' b
    here = ap m (omega arith) ∙ h 0 (omega arith) ∙ ap m' (omega arith)

    later : (i : ℕ) → i < n → m (suc a + i) ≡ m' (suc b + i)
    later i lt = ap m (omega arith) ∙ h (suc i) (omega arith) ∙ ap m' (omega arith)

pub window-append :
    (m : Cells) (a n k : ℕ) → window m a (n + k) ≡ window m a n ++ window m (a + n) k
window-append m a zero k = ap₂ (window m) (omega arith) (omega arith)
window-append m a (suc n) k =
    let total : suc n + k ≡ suc (n + k) = omega arith in
    let next : a + suc n ≡ suc a + n = omega arith in
    rw (total, next) (ap (λ xs. m a ∷ xs) (window-append m (suc a) n k))

pub drop-window : (m : Cells) (a n k : ℕ) → drop k (window m a n) ≡ window m (a + k) (n - k)
drop-window m a n zero = ap₂ (window m) (omega arith) (omega arith)
drop-window m a zero (suc k) = let none_left : 0 - suc k ≡ 0 = omega arith in rw none_left refl
drop-window m a (suc n) (suc k) =
    drop-window m (suc a) n k ∙ ap₂ (window m) (omega arith) (omega arith)

pub take-window : (m : Cells) (a n k : ℕ) → k ≤ n → take k (window m a n) ≡ window m a k
take-window m a n zero h = refl
take-window m a zero (suc k) h = absurd (omega arith)
take-window m a (suc n) (suc k) h = ap (λ xs. m a ∷ xs) (take-window m (suc a) n k (omega arith))

pub get_or-window : (m : Cells) (a n i d : ℕ) → i < n → get_or (window m a n) i d ≡ m (a + i)
get_or-window m a zero i d h = absurd (omega arith)
get_or-window m a (suc n) zero d h = ap m (add-zero a)
  where
    add-zero : (k : ℕ) → k ≡ k + 0
    add-zero k = omega arith
get_or-window m a (suc n) (suc i) d h =
    let next : a + suc i ≡ suc a + i = omega arith in
    rw next (get_or-window m (suc a) n i d (omega arith))

-- memcpy changes nothing outside its range,
pub memcpy_outside : (m : Cells) (a : ℕ) (xs : List ℕ) (i : ℕ) → i < a → memcpy m a xs i ≡ m i
unfolding memcpy
memcpy_outside m a [] i h = refl
memcpy_outside m a (x ∷ xs) i h = ground (arith, memcpy_outside m (suc a) xs i)

-- and its range holds the bytes afterwards.
pub window-memcpy : (m : Cells) (a : ℕ) (xs : List ℕ) → window (memcpy m a xs) a (length xs) ≡ xs
window-memcpy m a [] = refl
window-memcpy m a (x ∷ xs) = ap₂ ◌∷◌ here (
    window_congr (memcpy m a (x ∷ xs)) (memcpy m (suc a) xs) (suc a) (suc a) (length xs) later
    ∙ window-memcpy m (suc a) xs)
  where
    here : memcpy m a (x ∷ xs) a ≡ x
    here = unfold memcpy in ground arith

    later :
        (i : ℕ) → i < length xs → memcpy m a (x ∷ xs) (suc a + i) ≡ memcpy m (suc a) xs (suc a + i)
    later i h = unfold memcpy in ground arith

-- memmove to the front of the block copies the range, also when it overlaps its source.
pub window-memmove : (m : Cells) (from n : ℕ) → window (memmove m 0 from n) 0 n ≡ window m from n
window-memmove m from n = window_congr (memmove m 0 from n) m 0 from n same
  where
    same : (i : ℕ) → i < n → memmove m 0 from n (0 + i) ≡ m (from + i)
    same i h = unfold memmove in (let e : 0 + i ≡ i = omega arith in rw e (ground arith))

pub window-resize :
    (m : Cells) (old a n : ℕ) → a + n ≤ old → window (resize m old) a n ≡ window m a n
window-resize m old a n h = window_congr (resize m old) m a a n same
  where
    same : (i : ℕ) → i < n → resize m old (a + i) ≡ m (a + i)
    same i lt = unfold resize in ground arith

-- ===== src/Buffer/Flip.antt =====
-- What `rd_flip` (include/engine.h) does to the data.
use ugly_ff.Base.{
  ℕ, zero, suc, ◌+◌, ◌-◌, ◌^◌, ◌≤◌, ◌<◌, ◌≡◌, refl, ap, sym, ◌∙◌, inl, inr, false, [], arith, ltb,
  leb, ◌==◌, Bool-cases, drop, drop_all, add64, sub64,
}
use ugly_ff.Memory.{window, memmove, length-window, drop-window, window-memmove}
use ugly_ff.Buffer.{ByteBuffer, rd_flip}
use ugly_ff.Buffer.Laws.{IsValid, contents}

-- what taking `size` bytes from the front does
pub record Flipped (size : ℕ) (b b' : ByteBuffer) : Type 0 where
  pub valid : IsValid b'
  pub holds : contents b' ≡ drop size (contents b)
  pub same_max : b'.max_size ≡ b.max_size

flip_all : (size : ℕ) (b : ByteBuffer) → b.curr_ptr ≤ b.off_ptr + size → drop size (contents b) ≡ []
flip_all size b h =
    drop_all size (contents b)
      (omega (arith, length-window b.buffer b.off_ptr (b.curr_ptr - b.off_ptr)))

sub_zero : (n : ℕ) → n - 0 ≡ n
sub_zero n = omega arith

suc-ne-zero : (n : ℕ) → (suc n == 0) ≡ false
suc-ne-zero n = ground arith

-- `rd_flip(size)` drops the first `size` bytes of the data (all of it, if there are fewer), whether
-- or not it moves the rest to the front, and keeps the invariant and the block.
pub rd_flip-drop :
    (size : ℕ) (b : ByteBuffer)
    → IsValid b
    → b.max_size + size < 2 ^ 64
    → Flipped size b (rd_flip size b)
unfolding rd_flip
rd_flip-drop zero b v h = record { valid = v; holds = refl; same_max = refl }
rd_flip-drop (suc n) b v h =
    rw (suc-ne-zero n, no_wrap)
      (elim (Bool-cases (ltb (b.off_ptr + suc n) b.curr_ptr)) [
        | inl more ↦
            let rest : sub64 b.curr_ptr (b.off_ptr + suc n) ≡ b.curr_ptr - b.off_ptr - suc n =
              ground arith in
            rw (more, rest)
              (elim (Bool-cases (leb (b.curr_ptr - b.off_ptr - suc n) (b.off_ptr + suc n))) [
                | inl front ↦ rw front (record {
                  valid = ground arith;
                  holds =
                      ap
                        (window
                          (memmove b.buffer 0 (b.off_ptr + suc n) (b.curr_ptr - b.off_ptr - suc n))
                          0)
                        (sub_zero (b.curr_ptr - b.off_ptr - suc n))
                      ∙ window-memmove b.buffer (b.off_ptr + suc n) (b.curr_ptr - b.off_ptr - suc n)
                      ∙ sym (drop-window b.buffer b.off_ptr (b.curr_ptr - b.off_ptr) (suc n));
                  same_max = refl;
                })
                | inr stay ↦ rw stay (record {
                  valid = ground arith;
                  holds =
                      ap (window b.buffer (b.off_ptr + suc n)) reorder
                      ∙ sym (drop-window b.buffer b.off_ptr (b.curr_ptr - b.off_ptr) (suc n));
                  same_max = refl;
                })
              ])
        | inr done ↦ rw done (record {
          valid = omega arith;
          holds = sym (flip_all (suc n) b (ground arith));
          same_max = refl;
        })
      ])
  where
    no_wrap : add64 b.off_ptr (suc n) ≡ b.off_ptr + suc n
    no_wrap = omega arith

    reorder : b.curr_ptr - (b.off_ptr + suc n) ≡ b.curr_ptr - b.off_ptr - suc n
    reorder = omega arith

-- Taking all the data leaves both indices at 0.
pub rd_flip_all :
    (size : ℕ) (b : ByteBuffer)
    → IsValid b
    → b.max_size + size < 2 ^ 64
    → 0 < size
    → b.curr_ptr ≤ b.off_ptr + size
    → ((rd_flip size b).off_ptr ≡ 0) × ((rd_flip size b).curr_ptr ≡ 0)
unfolding rd_flip
rd_flip_all size b v h p all = ground arith

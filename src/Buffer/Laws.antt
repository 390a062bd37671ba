-- ===== src/Buffer/Laws.antt =====
-- What each operation of ByteBuffer does to the data, and its representation invariant.
use ugly_ff.Base.{
  ℕ, ◌+◌, ◌-◌, ◌/◌, ◌^◌, ◌≤◌, ◌<◌, ◌≡◌, refl, ap, ap₂, ◌∙◌, ◌⊎◌, inl, inr, List, [], ◌++◌, none,
  some, arith, ltb, leb, Bool-cases, le→leb, length, add64,
}
use ugly_ff.Memory.{
  Cells, window, memcpy, length-window, window-append, window_congr, memcpy_outside, window-memcpy,
  window-resize,
}
use ugly_ff.Buffer.{
  ByteBuffer, trunk_size, new_buffer, wr_size, trunk_count, reserve_dynamic, reserve_stack, put,
  put_stack, rd_size, wr_flip, reset,
}

pub record IsValid (b : ByteBuffer) : Type 0 where
  pub ordered : b.off_ptr ≤ b.curr_ptr
  pub within : b.curr_ptr ≤ b.max_size

-- the bytes that have been put in and not yet taken out
abbrev pub contents : ByteBuffer → List ℕ
contents b = window b.buffer b.off_ptr (b.curr_ptr - b.off_ptr)

-- No sum of the 64-bit indices wraps when `size` more bytes come.
abbrev pub Fits : ℕ → ByteBuffer → Type 0
Fits size b = b.max_size + size + trunk_size < 2 ^ 64

pub new_buffer-IsValid : IsValid new_buffer
unfolding new_buffer
new_buffer-IsValid = omega arith

pub contents-new_buffer : contents new_buffer ≡ []
unfolding new_buffer
contents-new_buffer = refl

pub rd_size-length :
    (b : ByteBuffer) → IsValid b → b.max_size < 2 ^ 64 → rd_size b ≡ length (contents b)
unfolding rd_size
rd_size-length b v h = omega (arith, length-window b.buffer b.off_ptr (b.curr_ptr - b.off_ptr))

pub rd_size-le : (b : ByteBuffer) → IsValid b → b.max_size < 2 ^ 64 → rd_size b ≤ b.max_size
unfolding rd_size
rd_size-le b v h = omega arith

-- The bytes written at the end of the data extend it.
contents-memcpy :
    (m : Cells) (off curr : ℕ) (xs : List ℕ)
    → off ≤ curr
    → window (memcpy m curr xs) off (curr + length xs - off) ≡ window m off (curr - off) ++ xs
contents-memcpy m off curr xs h =
    ap (window (memcpy m curr xs) off) split
    ∙ window-append (memcpy m curr xs) off (curr - off) (length xs)
    ∙ ap₂ ◌++◌ old new
  where
    split : curr + length xs - off ≡ (curr - off) + length xs
    split = omega arith

    old : window (memcpy m curr xs) off (curr - off) ≡ window m off (curr - off)
    old =
        window_congr (memcpy m curr xs) m off off (curr - off)
          (λ i lt. memcpy_outside m curr xs (off + i) (omega arith))

    new : window (memcpy m curr xs) (off + (curr - off)) (length xs) ≡ xs
    new = ap (λ a. window (memcpy m curr xs) a (length xs)) (omega arith) ∙ window-memcpy m curr xs

-- what reserving room does
pub record Reserved (size : ℕ) (b b' : ByteBuffer) : Type 0 where
  pub valid : IsValid b'
  pub room : b'.curr_ptr + size ≤ b'.max_size
  pub bound : b'.max_size < 2 ^ 64
  pub grown : b.max_size ≤ b'.max_size
  pub tight : b'.max_size < b.max_size + size + trunk_size
  pub same_off : b'.off_ptr ≡ b.off_ptr
  pub same_curr : b'.curr_ptr ≡ b.curr_ptr
  pub same : contents b' ≡ contents b

trunks : (size : ℕ) → size + trunk_size < 2 ^ 64 → trunk_count size ≡ (size + 65535) / 65536
unfolding trunk_count
trunks size h = omega arith

pub reserve_dynamic-Reserved :
    (size : ℕ) (b : ByteBuffer) → IsValid b → Fits size b → Reserved size b (reserve_dynamic size b)
unfolding reserve_dynamic
reserve_dynamic-Reserved size b v f = elim (Bool-cases (ltb (wr_size b) size)) [
  | inl small ↦ rw small (record {
    valid = omega (arith, trunks size (omega arith));
    room = omega (arith, trunks size (omega arith));
    bound = omega (arith, trunks size (omega arith));
    grown = omega (arith, trunks size (omega arith));
    tight = ground (arith, trunks size (omega arith));
    same_off = refl;
    same_curr = refl;
    same = window-resize b.buffer b.max_size b.off_ptr (b.curr_ptr - b.off_ptr) (omega arith);
  })
  | inr large ↦ rw large (record {
    valid = v;
    room = ground arith;
    bound = omega arith;
    grown = omega arith;
    tight = omega arith;
    same_off = refl;
    same_curr = refl;
    same = refl;
  })
]

-- `put` into room that is there appends the bytes.
put_lem :
    (bytes : List ℕ) (b b' : ByteBuffer)
    → Reserved (length bytes) b b'
    → let c : ByteBuffer = record b' {
      curr_ptr = add64 b'.curr_ptr (length bytes);
      buffer = memcpy b'.buffer b'.curr_ptr bytes;
    } in
      IsValid c × (contents c ≡ contents b ++ bytes)
put_lem bytes b b' r =
    let no_wrap : add64 b'.curr_ptr (length bytes) ≡ b'.curr_ptr + length bytes = omega arith in
    rw no_wrap (
      omega arith,
      contents-memcpy b'.buffer b'.off_ptr b'.curr_ptr bytes r.valid.ordered
          ∙ ap (λ xs. xs ++ bytes) r.same,
    )

-- what a successful `put` does
pub record Put (bytes : List ℕ) (b b' : ByteBuffer) : Type 0 where
  pub valid : IsValid b'
  pub holds : contents b' ≡ contents b ++ bytes
  pub tight : b'.max_size < b.max_size + length bytes + trunk_size

-- The buffer that grows takes any bytes: `put` never writes outside its block, appends the bytes to
-- the data, keeps the invariant, and adds less than one trunk more than the bytes need.
pub put-dynamic :
    (bytes : List ℕ) (b : ByteBuffer)
    → IsValid b
    → Fits (length bytes) b
    → (b' : ByteBuffer) × (put bytes b ≡ some b') × Put bytes b b'
unfolding put
put-dynamic bytes b v f =
    let r = reserve_dynamic-Reserved (length bytes) b v f in
    let c = put_lem bytes b (reserve_dynamic (length bytes) b) r in
    (_, rw (le→leb _ _ r.room) refl, record { valid = c.0; holds = c.1; tight = r.tight })

-- what a successful `put` into the array of 64 KiB does
pub record PutStack (bytes : List ℕ) (b b' : ByteBuffer) : Type 0 where
  pub valid : IsValid b'
  pub holds : contents b' ≡ contents b ++ bytes
  pub same_max : b'.max_size ≡ b.max_size
  pub moved : b'.curr_ptr ≡ b.curr_ptr + length bytes

-- The array of 64 KiB takes the bytes exactly when they fit behind its data; else the copy leaves
-- it.
pub put-stack :
    (bytes : List ℕ) (b : ByteBuffer)
    → IsValid b
    → b.max_size ≡ trunk_size
    → ((b.curr_ptr + length bytes ≤ trunk_size)
        × ((b' : ByteBuffer) × (put_stack bytes b ≡ some b') × PutStack bytes b b'))
      ⊎ ((trunk_size < b.curr_ptr + length bytes) × (put_stack bytes b ≡ none))
unfolding put_stack reserve_stack
put-stack bytes b v m = elim (Bool-cases (leb (b.curr_ptr + length bytes) b.max_size)) [
  | inl fits ↦
      let r : Reserved (length bytes) b b = record {
        valid = v;
        room = ground arith;
        bound = omega arith;
        grown = omega arith;
        tight = omega arith;
        same_off = refl;
        same_curr = refl;
        same = refl;
      } in
      let c = put_lem bytes b b r in
      inl (
        ground arith,
        (
          _,
          rw fits refl,
          record { valid = c.0; holds = c.1; same_max = refl; moved = ground arith },
        ),
      )
  | inr over ↦ inr (ground arith, rw over refl)
]

-- recv() into reserved room, followed by `wr_flip`, appends what was received.
pub wr_flip_lem :
    (bytes : List ℕ) (b : ByteBuffer)
    → IsValid b
    → b.max_size < 2 ^ 64
    → b.curr_ptr + length bytes ≤ b.max_size
    → IsValid (wr_flip bytes b) × (contents (wr_flip bytes b) ≡ contents b ++ bytes)
unfolding wr_flip
wr_flip_lem bytes b v h room = put_lem bytes b b (record {
  valid = v;
  room = room;
  bound = h;
  grown = omega arith;
  tight = omega arith;
  same_off = refl;
  same_curr = refl;
  same = refl;
})

pub reset_lem : (b : ByteBuffer) → IsValid (reset b) × (contents (reset b) ≡ [])
unfolding reset
reset_lem b = (omega arith, refl)

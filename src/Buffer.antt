-- ===== src/Buffer.antt =====
-- include/engine.h: the byte buffer ByteBuffer, with its two instances t_BufferCmdQueue (over a
-- std::vector that grows) and t_StackCmdQueue (over an array of 64 KiB), and the constructors of
-- include/zSocket.cpp. A DWORD is a 64-bit word, so `+=` and `-` on the indices are modulo 2^64.
use ugly_ff.Base.{
  ℕ, ◌+◌, ◌*◌, ◌/◌, ◌-◌, Bool, true, false, List, [], ◌∷◌, Option, none, some, ltb, leb, ◌==◌,
  if◌then◌else◌, length, add64, sub64,
}
use ugly_ff.Memory.{Cells, zeroed, memcpy, memmove, resize, window}
pub mod Laws
pub mod Flip
pub mod Refine

-- `const DWORD trunkSize = 64 * 1024`, also the size of the array of t_StackCmdQueue
abbrev pub trunk_size : ℕ
trunk_size = 65536

pub record ByteBuffer : Type 0 where
  pub max_size : ℕ
  pub off_ptr : ℕ
  pub curr_ptr : ℕ
  pub buffer : Cells

-- The constructors of the two instances give the same fields: 64 KiB, nothing in it.
unfoldable pub new_buffer : ByteBuffer
new_buffer = record { max_size = trunk_size; off_ptr = 0; curr_ptr = 0; buffer = zeroed }

-- the room behind the data
unfoldable pub wr_size : ByteBuffer → ℕ
wr_size b = sub64 b.max_size b.curr_ptr

-- the macro trunkCount(size)
unfoldable pub trunk_count : ℕ → ℕ
trunk_count size = sub64 (add64 size trunk_size) 1 / trunk_size

-- t_BufferCmdQueue::wr_reserve: where the room is too small, whole trunks are added.
unfoldable pub reserve_dynamic : ℕ → ByteBuffer → ByteBuffer
unfolding wr_size trunk_count
reserve_dynamic size b =
    if ltb (wr_size b) size
    then record b {
      max_size = add64 b.max_size (trunk_size * trunk_count size);
      buffer = resize b.buffer b.max_size;
    }
    else b

-- t_StackCmdQueue::wr_reserve, whose whole body is commented out
unfoldable pub reserve_stack : ℕ → ByteBuffer → ByteBuffer
reserve_stack size b = b

-- ByteBuffer::put over the instance's `wr_reserve`. The test `_maxSize - _currPtr < size` in it has
-- an empty branch, so the copy is made anyway: `none` is a copy that leaves the block.
unfoldable pub put_with : (ℕ → ByteBuffer → ByteBuffer) → List ℕ → ByteBuffer → Option ByteBuffer
put_with wr_reserve bytes b =
    let b' = wr_reserve (length bytes) b in
    if leb (b'.curr_ptr + length bytes) b'.max_size
    then some (record b' {
      curr_ptr = add64 b'.curr_ptr (length bytes);
      buffer = memcpy b'.buffer b'.curr_ptr bytes;
    })
    else none

-- `put` of t_BufferCmdQueue
unfoldable pub put : List ℕ → ByteBuffer → Option ByteBuffer
unfolding put_with
put = put_with reserve_dynamic

-- `put` of t_StackCmdQueue
unfoldable pub put_stack : List ℕ → ByteBuffer → Option ByteBuffer
unfolding put_with
put_stack = put_with reserve_stack

unfoldable pub rd_ready : ByteBuffer → Bool
rd_ready b = ltb b.off_ptr b.curr_ptr

unfoldable pub rd_size : ByteBuffer → ℕ
rd_size b = sub64 b.curr_ptr b.off_ptr

-- `n` bytes read from the address rd_buf()
unfoldable pub rd_buf : ByteBuffer → ℕ → List ℕ
rd_buf b n = window b.buffer b.off_ptr n

-- ByteBuffer::rd_flip: the data that was used goes, and what is left moves to the front if it fits
-- in front of itself.
unfoldable pub rd_flip : ℕ → ByteBuffer → ByteBuffer
rd_flip size b =
    if size == 0
    then b
    else let off = add64 b.off_ptr size in
      let rest = sub64 b.curr_ptr off in
      if ltb off b.curr_ptr
      then (if leb rest off
          then record b { off_ptr = 0; curr_ptr = rest; buffer = memmove b.buffer 0 off rest }
          else record b { off_ptr = off })
      else record b { off_ptr = 0; curr_ptr = 0 }

-- ByteBuffer::wr_flip, after recv() has written `bytes` at the address wr_buf()
unfoldable pub wr_flip : List ℕ → ByteBuffer → ByteBuffer
wr_flip bytes b = record b {
  curr_ptr = add64 b.curr_ptr (length bytes);
  buffer = memcpy b.buffer b.curr_ptr bytes;
}

unfoldable pub reset : ByteBuffer → ByteBuffer
reset b = record b { off_ptr = 0; curr_ptr = 0 }

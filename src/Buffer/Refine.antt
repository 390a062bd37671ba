-- ===== src/Buffer/Refine.antt =====
-- Any sequence of puts and flips: the growing buffer against a queue of bytes.
use ugly_ff.Base.{
  ℕ, ◌+◌, ◌^◌, ◌<◌, ◌≡◌, refl, ap, ◌∙◌, List, [], ◌∷◌, ◌++◌, Option, none, some, arith, length,
  drop,
}
use ugly_ff.Buffer.{ByteBuffer, trunk_size, put, rd_flip}
use ugly_ff.Buffer.Laws.{IsValid, contents, put-dynamic}
use ugly_ff.Buffer.Flip.{Flipped, rd_flip-drop}

-- The calls by which the framework fills and empties a buffer.
pub data Use : Type 0 where
  puts : List ℕ → Use
  flips : ℕ → Use

unfoldable pub run : List Use → ByteBuffer → Option ByteBuffer
run [] b = some b
run (puts bytes ∷ us) b = elim (put bytes b) [ none ↦ none | some b' ↦ run us b' ]
run (flips n ∷ us) b = run us (rd_flip n b)

-- the specification: a queue of bytes
unfoldable pub queue : List Use → List ℕ → List ℕ
queue [] q = q
queue (puts bytes ∷ us) q = queue us (q ++ bytes)
queue (flips n ∷ us) q = queue us (drop n q)

-- the memory that the calls may ask for in the worst case
unfoldable pub demand : List Use → ℕ
demand [] = 0
demand (puts bytes ∷ us) = length bytes + trunk_size + demand us
demand (flips n ∷ us) = n + demand us

run-puts :
    (bytes : List ℕ) (us : List Use) (b : ByteBuffer) {b' : ByteBuffer}
    → put bytes b ≡ some b'
    → run (puts bytes ∷ us) b ≡ run us b'
unfolding run
run-puts bytes us b e = rw (e, run)

-- Whatever the sequence of puts and flips on a valid buffer, if its total size stays below 2^64 the
-- buffer faults at no call, stays valid, and ends with the bytes of the queue.
pub run-queue :
    (us : List Use) (b : ByteBuffer)
    → IsValid b
    → b.max_size + demand us + trunk_size < 2 ^ 64
    → (b' : ByteBuffer) × (run us b ≡ some b') × IsValid b' × (contents b' ≡ queue us (contents b))
unfolding run queue demand
run-queue [] b v h = (b, refl, v, refl)
run-queue (puts bytes ∷ us) b v h =
    let (b₁, e, p) = put-dynamic bytes b v (omega arith) in
    let (b₂, e₂, v₂, c₂) = run-queue us b₁ p.valid (omega (arith, p.tight)) in
    (b₂, run-puts bytes us b e ∙ e₂, v₂, c₂ ∙ ap (queue us) p.holds)
run-queue (flips n ∷ us) b v h =
    let f : Flipped n b (rd_flip n b) = rd_flip-drop n b v (omega arith) in
    let (b₂, e₂, v₂, c₂) = run-queue us (rd_flip n b) f.valid (omega (arith, f.same_max)) in
    (b₂, e₂, v₂, c₂ ∙ ap (queue us) f.holds)

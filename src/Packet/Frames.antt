-- ===== src/Packet/Frames.antt =====
-- The byte stream that packed commands make, and what packing and unpacking do to it.
use ugly_ff.Base.{
  ℕ, ◌+◌, ◌-◌, ◌≤◌, ◌<◌, ◌≡◌, refl, ap, sym, ◌∙◌, ◌⊎◌, inl, inr, List, [], ◌∷◌, ◌++◌, append_assoc,
  none, some, arith, le→leb, length, length-append, take, drop, get_or, take-length,
}
use ugly_ff.Memory.{window, drop-window, take-window, length-window, get_or-window}
use ugly_ff.Buffer.{ByteBuffer, trunk_size, new_buffer, put_stack}
use ugly_ff.Buffer.Laws.{IsValid, contents, put-stack, new_buffer-IsValid}
use ugly_ff.Packet.{pack_head, head_len, pack_head_size, max_datasize, packet_append, packet_unpack}

-- a command as it stands in the stream
abbrev pub frame : List ℕ → List ℕ
frame cmd = pack_head (length cmd) ++ cmd

abbrev pub frames : List (List ℕ) → List ℕ
frames [] = []
frames (cmd ∷ cmds) = frame cmd ++ frames cmds

-- a command that the receiver accepts: not empty, at most MAX_DATASIZE bytes
abbrev pub Fair : List ℕ → Type 0
Fair cmd = (0 < length cmd) × (length cmd ≤ max_datasize)

pub length-pack_head : (n : ℕ) → length (pack_head n) ≡ 4
unfolding pack_head
length-pack_head n = refl

pub length-frame : (cmd : List ℕ) → length (frame cmd) ≡ length cmd + 4
length-frame cmd =
    omega (arith, length-append (pack_head (length cmd)) cmd, length-pack_head (length cmd))

pub frames-append : (xs ys : List (List ℕ)) → frames (xs ++ ys) ≡ frames xs ++ frames ys
frames-append [] ys = refl
frames-append (x ∷ xs) ys =
    ap (λ r. frame x ++ r) (frames-append xs ys)
    ∙ sym (append_assoc (frame x) (frames xs) (frames ys))

-- the packing of `cmd` into the fresh queue gave `q`
pub record Packed (cmd : List ℕ) (q : ByteBuffer) : Type 0 where
  pub done : packet_append cmd new_buffer ≡ some q
  pub valid : IsValid q
  pub holds : contents q ≡ frame cmd
  pub same_max : q.max_size ≡ trunk_size

after_head :
    (cmd : List ℕ) {q : ByteBuffer}
    → put_stack (pack_head (length cmd)) new_buffer ≡ some q
    → packet_append cmd new_buffer ≡ put_stack cmd q
unfolding packet_append
after_head cmd e = rw e

-- Packing a command into a fresh queue gives its frame, when head and command fit into its 64 KiB;
-- a longer command is copied past the end of the queue's array.
pub packet_append-frame :
    (cmd : List ℕ)
    → ((length cmd + pack_head_size ≤ trunk_size) × ((q : ByteBuffer) × Packed cmd q))
      ⊎ ((trunk_size < length cmd + pack_head_size) × (packet_append cmd new_buffer ≡ none))
unfolding new_buffer
packet_append-frame cmd =
    elim (put-stack (pack_head (length cmd)) new_buffer new_buffer-IsValid refl) [
      | inr (over, _) ↦ absurd (omega (arith, length-pack_head (length cmd)))
      | inl (_, (q, e, p)) ↦ elim (put-stack cmd q p.valid p.same_max) [
        | inr (over, e₂) ↦
            inr (omega (arith, length-pack_head (length cmd), p.moved), after_head cmd e ∙ e₂)
        | inl (fits, (q₂, e₂, p₂)) ↦ inl (
          omega (arith, length-pack_head (length cmd), p.moved),
          (
            q₂,
            record {
              done = after_head cmd e ∙ e₂;
              valid = p₂.valid;
              holds = p₂.holds ∙ ap (λ xs. xs ++ cmd) p.holds;
              same_max = p₂.same_max ∙ p.same_max;
            },
          ),
        )
      ]
    ]

window-nth :
    (b : ByteBuffer) (xs : List ℕ) (i x : ℕ)
    → contents b ≡ xs
    → i < length xs
    → get_or xs i 0 ≡ x
    → b.buffer (b.off_ptr + i) ≡ x
window-nth b xs i x e h g =
    sym (
      get_or-window b.buffer b.off_ptr (b.curr_ptr - b.off_ptr) i 0
        (omega (arith, ap length e, length-window b.buffer b.off_ptr (b.curr_ptr - b.off_ptr))))
    ∙ ap (λ ys. get_or ys i 0) e
    ∙ g

-- Where the data begins with a frame, the head gives the marks and the command's length,
pub head_len-frame :
    (b : ByteBuffer) (cmd rest : List ℕ)
    → length cmd ≤ max_datasize
    → contents b ≡ frame cmd ++ rest
    → (b.buffer b.off_ptr ≡ 0xAA) × (b.buffer (b.off_ptr + 1) ≡ 0xDD) × (head_len b ≡ length cmd)
unfolding head_len pack_head
head_len-frame b cmd rest h e =
    let start : b.off_ptr ≡ b.off_ptr + 0 = omega arith in
    (
      ap b.buffer start ∙ window-nth b _ 0 _ e (omega arith) refl,
      window-nth b _ 1 _ e (omega arith) refl,
      omega
          (arith, window-nth b _ 2 _ e (omega arith) refl, window-nth b _ 3 _ e (omega arith) refl),
    )

-- and unpacking gives the command, if the block has room for it.
pub packet_unpack-frame :
    (b : ByteBuffer) (cmd rest : List ℕ) (room : ℕ)
    → IsValid b
    → length cmd ≤ room
    → contents b ≡ frame cmd ++ rest
    → packet_unpack b (length cmd) room ≡ some cmd
unfolding packet_unpack
packet_unpack-frame b cmd rest room v h e = rw (le→leb _ _ inside, le→leb _ _ h) (ap some payload)
  where
    total : b.curr_ptr - b.off_ptr ≡ length cmd + 4 + length rest
    total = omega (
      arith,
      ap length e,
      length-window b.buffer b.off_ptr (b.curr_ptr - b.off_ptr),
      length-append (frame cmd) rest,
      length-frame cmd,
    )

    inside : b.off_ptr + pack_head_size + length cmd ≤ b.max_size
    inside = omega (arith, total)

    behind : window b.buffer (b.off_ptr + 4) (b.curr_ptr - b.off_ptr - 4) ≡ cmd ++ rest
    behind =
        sym (drop-window b.buffer b.off_ptr (b.curr_ptr - b.off_ptr) 4)
        ∙ ap (drop 4) e
        ∙ (unfold pack_head in refl)

    payload : window b.buffer (b.off_ptr + 4) (length cmd) ≡ cmd
    payload =
        sym (
          take-window b.buffer (b.off_ptr + 4) (b.curr_ptr - b.off_ptr - 4) (length cmd)
            (omega (arith, total)))
        ∙ ap (take (length cmd)) behind
        ∙ take-length cmd rest

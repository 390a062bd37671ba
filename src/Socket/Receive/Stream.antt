-- ===== src/Socket/Receive/Stream.antt =====
-- The stream that a socket receives: however the kernel cuts it up, RecvData puts the frames
-- together again, one after the other.
use ugly_ff.Base.{
  ℕ, ◌+◌, ◌*◌, ◌≤◌, ◌<◌, ◌^◌, ◌≡◌, refl, ap, ap₂, sym, ◌∙◌, ◌⊎◌, ◌≢◌, List, [], ◌∷◌, ◌++◌,
  append-nil, Option, some, arith, length, append_cancel,
}
use ugly_ff.Buffer.{trunk_size, rd_size}
use ugly_ff.Buffer.Laws.{IsValid, contents, rd_size-length}
use ugly_ff.Packet.{pack_head_size}
use ugly_ff.Packet.Frames.{frame, frames, Fair, length-frame}
use ugly_ff.Socket.{Socket}
use ugly_ff.Socket.Receive.{Received, deliver, finish}
use ugly_ff.Socket.Receive.Step.{IsFront, Got, deliver-stays, deliver-Delivered}

-- the message that is being put together is not complete
abbrev pub Partial : List (List ℕ) → List ℕ → Type 0
Partial [] c = Unit {0}
Partial (cmd ∷ cmds) c = length c < length cmd + pack_head_size

-- The buffer and the bytes still in the kernel are together the frames of `cmds`.
pub record Assembling (cmds : List (List ℕ)) (wire : List ℕ) (s : Socket) : Type 0 where
  pub front : IsFront s.recv_buffer
  pub queue : IsValid s.rcv_queue
  pub stream : contents s.recv_buffer ++ wire ≡ frames cmds
  pub part : Partial cmds (contents s.recv_buffer)

-- A call of RecvData completes the commands `done` and leaves `rest` to come.
pub record Advance (cmds : List (List ℕ)) (s : Socket) (r : Received) : Type 0 where
  pub done : List (List ℕ)
  pub rest : List (List ℕ)
  pub split : cmds ≡ done ++ rest
  pub next : Assembling rest r.wire r.socket
  pub holds : contents r.socket.rcv_queue ≡ contents s.rcv_queue ++ frames done
  pub bound : r.socket.rcv_queue.max_size < s.rcv_queue.max_size + 2 * trunk_size
  pub same_sock : r.socket.sock ≡ s.sock

after_deliver :
    (len : ℕ) (r : Received) {t : Socket}
    → deliver 2 len r.socket ≡ some t
    → finish len r ≡ some (record r { socket = t })
after_deliver len r e = rw e

-- The call received, and the message is not complete.
pub Advance-stays :
    (cmds : List (List ℕ)) (ask len : ℕ) (k : Option ℕ) (wire : List ℕ) (s : Socket) (r : Received)
    → Assembling cmds wire s
    → Got ask k wire s r
    → Partial cmds (contents r.socket.recv_buffer)
    → (length (contents r.socket.recv_buffer) ≤ pack_head_size)
      ⊎ (length (contents r.socket.recv_buffer) ≢ len + pack_head_size)
    → (t : Received) × (finish len r ≡ some t) × (t.wire ≡ r.wire) × Advance cmds s t
Advance-stays cmds ask len k wire s r a g p stays = (
  r,
  after_deliver len r (deliver-stays len r.socket (ground (arith, size))),
  refl,
  record {
    done = [];
    rest = cmds;
    split = refl;
    next = record {
      front = g.front;
      queue = rw g.same_queue a.queue;
      stream = g.stream ∙ a.stream;
      part = p;
    };
    holds = ap contents g.same_queue ∙ sym (append-nil (contents s.rcv_queue));
    bound = rw g.same_queue (omega arith);
    same_sock = g.same_sock;
  },
)
  where
    size : rd_size r.socket.recv_buffer ≡ length (contents r.socket.recv_buffer)
    size = rd_size-length r.socket.recv_buffer g.front.valid (omega (arith, g.front.one_trunk))

-- The call received the rest of the message.
pub Advance-completes :
    (cmd : List ℕ) (cmds : List (List ℕ)) (ask : ℕ) (k : Option ℕ) (wire : List ℕ) (s : Socket)
    (r : Received)
    → Fair cmd
    → s.rcv_queue.max_size < 2 ^ 62
    → Assembling (cmd ∷ cmds) wire s
    → Got ask k wire s r
    → length (contents r.socket.recv_buffer) ≡ length cmd + pack_head_size
    → (t : Received) × (finish (length cmd) r ≡ some t)
      × (t.wire ≡ r.wire)
      × Advance (cmd ∷ cmds) s t
Advance-completes cmd cmds ask k wire s r fair b a g full =
    let (whole, left) =
      append_cancel (contents r.socket.recv_buffer) r.wire (frame cmd) (frames cmds)
        (g.stream ∙ a.stream) (full ∙ sym (length-frame cmd)) in
    let (t, d) =
      deliver-Delivered cmd r.socket fair g.front whole (rw g.same_queue a.queue)
        (rw g.same_queue b) in
    (
      record r { socket = t },
      after_deliver (length cmd) r d.done,
      refl,
      record {
        done = cmd ∷ [];
        rest = cmds;
        split = refl;
        next = record {
          front = d.front;
          queue = d.valid;
          stream = ap (λ xs. xs ++ r.wire) d.emptied ∙ left;
          part = start cmds t d.emptied;
        };
        holds = d.holds ∙ ap₂ ◌++◌ (ap contents g.same_queue) (sym (append-nil (frame cmd)));
        bound = rw g.same_queue at d.bound;
        same_sock = d.same_sock ∙ g.same_sock;
      },
    )
  where
    start :
        (cs : List (List ℕ)) (t : Socket)
        → contents t.recv_buffer ≡ []
        → Partial cs (contents t.recv_buffer)
    start [] t e = tt
    start (c ∷ cs) t e = omega (arith, ap length e)

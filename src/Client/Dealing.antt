-- ===== src/Client/Dealing.antt =====
-- include/zTCPClient.cpp: how one message more, or one test signal more, is dealt with.
use ugly_ff.Base.{
  ℕ, ◌+◌, ◌*◌, ◌≤◌, ◌<◌, ◌^◌, ◌≡◌, refl, ap, ap₂, sym, subst, ◌∙◌, ◌⊎◌, true, false, inl, inr, List,
  [], ◌∷◌, ◌++◌, append_assoc, append-nil, Option, some, if◌then◌else◌, length, arith,
}
use ugly_ff.Buffer.{ByteBuffer, trunk_size}
use ugly_ff.Buffer.Laws.{IsValid, contents}
use ugly_ff.Packet.Frames.{frame, frames}
use ugly_ff.Socket.{Socket, is_invalid}
use ugly_ff.Socket.Send.{Sent}
use ugly_ff.Socket.Send.Stream.{Ready, Sends, Fails}
use ugly_ff.Socket.Receive.{Command}
use ugly_ff.Socket.Receive.Take.{Taken}
use ugly_ff.Task.{is_test_signal}
use ugly_ff.Task.Listening.{Holding, requests}
use ugly_ff.Client.{Listened, with_message, with_wire, after_echo}
use ugly_ff.Client.Beside.{Beside}

-- the commands that are test signals
abbrev pub signals : ℕ → List (List ℕ) → List (List ℕ)
signals stale [] = []
signals stale (cmd ∷ cmds) =
    if is_test_signal stale cmd then cmd ∷ signals stale cmds else signals stale cmds

-- msgParse leaves the descriptor and both queues alone.
pub record LeavesAlone (msg_parse : List ℕ → Socket → Socket) : Type 0 where
  pub sock : (m : List ℕ) (s : Socket) → (msg_parse m s).sock ≡ s.sock
  pub queue : (m : List ℕ) (s : Socket) → (msg_parse m s).rcv_queue ≡ s.rcv_queue
  pub waiting : (m : List ℕ) (s : Socket) → (msg_parse m s).send_queue ≡ s.send_queue

-- All messages were taken: the requests were handed on, and the signals are on their way.
pub record Finished (stale : ℕ) (cmds : List (List ℕ)) (s : Socket) (l : Listened) : Type 0 where
  pub went_on : l.ok ≡ true
  pub messages : l.messages ≡ requests stale cmds
  pub stream :
      l.wire ++ contents l.socket.send_queue ≡ contents s.send_queue ++ frames (signals stale cmds)
  pub emptied : contents l.socket.rcv_queue ≡ []

-- The signal `signal` could not be sent: what came before it was dealt with.
pub record Stopped (stale : ℕ) (cmds : List (List ℕ)) (s : Socket) (l : Listened) : Type 0 where
  pub before : List (List ℕ)
  pub signal : List ℕ
  pub after : List (List ℕ)
  pub splits : cmds ≡ before ++ signal ∷ after
  pub is_signal : is_test_signal stale signal ≡ true
  pub gave_up : l.ok ≡ false
  pub messages : l.messages ≡ requests stale before
  pub stream :
      l.wire ++ contents l.socket.send_queue
      ≡ contents s.send_queue ++ frames (signals stale before)

abbrev pub Dealt : ℕ → List (List ℕ) → Socket → Option Listened → Type 0
Dealt stale cmds s r =
    (l : Listened) × (r ≡ some l) × (Finished stale cmds s l ⊎ Stopped stale cmds s l)

-- The socket holds the frames of `cmds`, and there is room for sending them all back.
pub record Listens (cmds : List (List ℕ)) (s : Socket) : Type 0 where
  pub holding : Holding cmds s
  pub valid : IsValid s.send_queue
  pub bound : s.send_queue.max_size + 2 * trunk_size * length cmds < 2 ^ 31

module _ (cmd : List ℕ) (cmds : List (List ℕ)) (s : Socket) (c : Command)
    (l : Listens (cmd ∷ cmds) s) (t : Taken cmd (frames cmds) s c)
    (q : c.socket.send_queue ≡ s.send_queue) where
  pub moved_Listens :
      (u : Socket)
      → u.sock ≡ c.socket.sock
      → u.rcv_queue ≡ c.socket.rcv_queue
      → IsValid u.send_queue
      → u.send_queue.max_size ≤ s.send_queue.max_size + 2 * trunk_size
      → Listens cmds u
  moved_Listens u same_sock same_queue v b = record {
    holding = record {
      opened = ap is_invalid (same_sock ∙ t.same_sock) ∙ l.holding.opened;
      valid = rw same_queue t.valid;
      bound = rw same_queue (omega (arith, t.same_max, l.holding.bound));
      holds = ap contents same_queue ∙ t.holds;
    };
    valid = v;
    bound = omega (arith, l.bound, b);
  }

  pub message_Listens :
      (msg_parse : List ℕ → Socket → Socket) (m : List ℕ)
      → LeavesAlone msg_parse
      → Listens cmds (msg_parse m c.socket)
  message_Listens msg_parse m k =
      let waits = k.waiting m c.socket ∙ q in
      moved_Listens (msg_parse m c.socket) (k.sock m c.socket) (k.queue m c.socket)
        (subst IsValid (sym waits) l.valid)
        (omega (arith, ap (λ (b : ByteBuffer). b.max_size) waits))

  pub signal_Listens :
      (r : Sent) → Beside c.socket r → Sends (frame cmd) c.socket r → Listens cmds r.socket
  signal_Listens r b sends =
      moved_Listens r.socket (b.sock sends.accepted) b.rcv_queue sends.valid
        (omega (arith, sends.bound, ap (λ (b : ByteBuffer). b.max_size) q))

  pub ready : Ready c.socket
  ready = record {
    valid = subst IsValid (sym q) l.valid;
    bound = omega (arith, l.bound, ap (λ (b : ByteBuffer). b.max_size) q);
  }

-- One more message, or one more signal, in front of what was dealt with.
module _ (stale : ℕ) (cmd : List ℕ) (cmds : List (List ℕ)) (s : Socket) where
  pub Dealt-message :
      (u : Socket) (r : Option Listened)
      → is_test_signal stale cmd ≡ false
      → u.send_queue ≡ s.send_queue
      → Dealt stale cmds u r
      → Dealt stale (cmd ∷ cmds) s (with_message cmd r)
  Dealt-message u r n q (l, e, inl f) = (
    record l { messages = cmd ∷ l.messages },
    rw e refl,
    inl record {
      went_on = f.went_on;
      messages = rw n (ap (◌∷◌ cmd) f.messages);
      stream =
          rw n (f.stream ∙ ap (λ (b : ByteBuffer). contents b ++ frames (signals stale cmds)) q);
      emptied = f.emptied;
    },
  )
  Dealt-message u r n q (l, e, inr f) = (
    record l { messages = cmd ∷ l.messages },
    rw e refl,
    inr record {
      before = cmd ∷ f.before;
      signal = f.signal;
      after = f.after;
      splits = ap (◌∷◌ cmd) f.splits;
      is_signal = f.is_signal;
      gave_up = f.gave_up;
      messages = rw n (ap (◌∷◌ cmd) f.messages);
      stream =
          rw n
            (f.stream ∙ ap (λ (b : ByteBuffer). contents b ++ frames (signals stale f.before)) q);
    },
  )

  pub echo_chain :
      (u : Socket) (sent : Sent) (wire waits : List ℕ) (sigs : List (List ℕ))
      → u.send_queue ≡ s.send_queue
      → Sends (frame cmd) u sent
      → wire ++ waits ≡ contents sent.socket.send_queue ++ frames sigs
      → (sent.wire ++ wire) ++ waits ≡ contents s.send_queue ++ (frame cmd ++ frames sigs)
  echo_chain u sent wire waits sigs q sends e =
      append_assoc sent.wire wire waits
      ∙ ap (λ t. sent.wire ++ t) e
      ∙ sym (append_assoc sent.wire (contents sent.socket.send_queue) (frames sigs))
      ∙ ap (λ t. t ++ frames sigs) sends.stream
      ∙ append_assoc (contents u.send_queue) (frame cmd) (frames sigs)
      ∙ ap (λ (b : ByteBuffer). contents b ++ (frame cmd ++ frames sigs)) q

  pub Dealt-signal :
      (u : Socket) (sent : Sent) (r : Option Listened)
      → is_test_signal stale cmd ≡ true
      → u.send_queue ≡ s.send_queue
      → Sends (frame cmd) u sent
      → Dealt stale cmds sent.socket r
      → Dealt stale (cmd ∷ cmds) s (with_wire sent.wire r)
  Dealt-signal u sent r y q sends (l, e, inl f) = (
    record l { wire = sent.wire ++ l.wire },
    rw e refl,
    inl record {
      went_on = f.went_on;
      messages = rw y f.messages;
      stream = rw y (echo_chain u sent l.wire _ (signals stale cmds) q sends f.stream);
      emptied = f.emptied;
    },
  )
  Dealt-signal u sent r y q sends (l, e, inr f) = (
    record l { wire = sent.wire ++ l.wire },
    rw e refl,
    inr record {
      before = cmd ∷ f.before;
      signal = f.signal;
      after = f.after;
      splits = ap (◌∷◌ cmd) f.splits;
      is_signal = f.is_signal;
      gave_up = f.gave_up;
      messages = rw y f.messages;
      stream = rw y (echo_chain u sent l.wire _ (signals stale f.before) q sends f.stream);
    },
  )

  -- A signal that could not be sent ends the loop.
  pub Dealt-stopped :
      (u : Socket) (sent : Sent) (rest : Option Listened)
      → is_test_signal stale cmd ≡ true
      → u.send_queue ≡ s.send_queue
      → Fails u sent
      → Dealt stale (cmd ∷ cmds) s (after_echo sent rest)
  Dealt-stopped u sent rest y q f = rw f.refused (
    _,
    refl,
    inr record {
      before = [];
      signal = cmd;
      after = cmds;
      splits = refl;
      is_signal = y;
      gave_up = refl;
      messages = refl;
      stream = ap₂ ◌++◌ f.nothing (ap contents (f.same ∙ q)) ∙ sym (append-nil _);
    },
  )

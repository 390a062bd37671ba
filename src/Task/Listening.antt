-- ===== src/Task/Listening.antt =====
-- ListeningRecv: the loop that takes the complete messages off the queue.
use ugly_ff.Base.{
  ℕ, zero, suc, ◌≤◌, ◌<◌, ◌^◌, ◌≡◌, refl, ap, sym, ◌∙◌, true, false, not, Bool-cases, inl, inr,
  List, [], ◌∷◌, Option, some, if◌then◌else◌, lt→ltb, length, All, arith,
}
use ugly_ff.Buffer.{rd_size}
use ugly_ff.Buffer.Laws.{IsValid, contents, rd_size-length}
use ugly_ff.Packet.{max_datasize, pack_head_size}
use ugly_ff.Packet.Frames.{frames, Fair}
use ugly_ff.Socket.{Socket, is_invalid}
use ugly_ff.Socket.Receive.{Command, recv_to_cmd}
use ugly_ff.Socket.Receive.Take.{Taken, recv_to_cmd-Taken, recv_to_cmd-none}
use ugly_ff.Task.{
  Task, Heard, heard, listen, listening_recv, clear_tick, is_test_signal, is_positive,
}

-- msgParse leaves the socket's descriptor and its queue of received messages alone.
pub record Keeps (msg_parse : List ℕ → Task → Task) : Type 0 where
  pub sock : (m : List ℕ) (t : Task) → (msg_parse m t).socket.sock ≡ t.socket.sock
  pub queue : (m : List ℕ) (t : Task) → (msg_parse m t).socket.rcv_queue ≡ t.socket.rcv_queue

-- the commands that are no test signals
abbrev pub requests : ℕ → List (List ℕ) → List (List ℕ)
requests stale [] = []
requests stale (cmd ∷ cmds) =
    if is_test_signal stale cmd then requests stale cmds else cmd ∷ requests stale cmds

-- an open socket whose queue holds the frames of `cmds`
pub record Holding (cmds : List (List ℕ)) (s : Socket) : Type 0 where
  pub opened : is_invalid s.sock ≡ false
  pub valid : IsValid s.rcv_queue
  pub bound : s.rcv_queue.max_size < 2 ^ 62
  pub holds : contents s.rcv_queue ≡ frames cmds

-- the loop over the queue of `cmds` is over
record Done (stale : ℕ) (cmds : List (List ℕ)) (r : Option Heard) : Type 0 where
  result : Heard
  ran : r ≡ some result
  messages : result.messages ≡ requests stale cmds
  left : Holding [] result.task.socket

Taken-Holding :
    {cmd : List ℕ} {cmds : List (List ℕ)} {s : Socket} {c : Command}
    → Holding (cmd ∷ cmds) s
    → Taken cmd (frames cmds) s c
    → Holding cmds c.socket
Taken-Holding h t = record {
  opened = ap is_invalid t.same_sock ∙ h.opened;
  valid = t.valid;
  bound = omega (arith, t.same_max, h.bound);
  holds = t.holds;
}

module _ (msg_parse : List ℕ → Task → Task) (stale : ℕ) where
  round :
      (fuel : ℕ) (t : Task) {c : Command}
      → recv_to_cmd max_datasize t.socket ≡ some c
      → listen msg_parse stale (suc fuel) t ≡ (
          let t' : Task = record t { socket = c.socket } in
          if not (is_positive c.ret)
          then some (record { task = t'; messages = [] })
          else if is_test_signal stale c.cmd
          then listen msg_parse stale fuel (clear_tick t')
          else heard c.cmd (listen msg_parse stale fuel (msg_parse c.cmd t')))
  unfolding listen
  round fuel t e = rw e

  Keeps-Holding :
      (k : Keeps msg_parse) (m : List ℕ) (cmds : List (List ℕ)) (t : Task)
      → Holding cmds t.socket
      → Holding cmds (msg_parse m t).socket
  Keeps-Holding k m cmds t h = record {
    opened = ap is_invalid (k.sock m t) ∙ h.opened;
    valid = rw (k.queue m t) h.valid;
    bound = rw (k.queue m t) h.bound;
    holds = ap contents (k.queue m t) ∙ h.holds;
  }

  heard-Done :
      {cmds : List (List ℕ)} (cmd : List ℕ) (r : Option Heard)
      → is_test_signal stale cmd ≡ false
      → Done stale cmds r
      → Done stale (cmd ∷ cmds) (heard cmd r)
  heard-Done cmd r n d = record {
    result = record { task = d.result.task; messages = cmd ∷ d.result.messages };
    ran = rw d.ran;
    messages = rw n (ap (λ ms. cmd ∷ ms) d.messages);
    left = d.left;
  }

  -- one round, by what recvToCmd gave
  round_signal :
      (fuel : ℕ) (t : Task) {c : Command}
      → recv_to_cmd max_datasize t.socket ≡ some c
      → is_positive c.ret ≡ true
      → is_test_signal stale c.cmd ≡ true
      → listen msg_parse stale (suc fuel) t
        ≡ listen msg_parse stale fuel (record t { socket = c.socket; tick = false })
  unfolding clear_tick
  round_signal fuel t e p s = round fuel t e ∙ rw (p, s) refl

  round_message :
      (fuel : ℕ) (t : Task) {c : Command}
      → recv_to_cmd max_datasize t.socket ≡ some c
      → is_positive c.ret ≡ true
      → is_test_signal stale c.cmd ≡ false
      → listen msg_parse stale (suc fuel) t
        ≡ heard c.cmd
            (listen msg_parse stale fuel (msg_parse c.cmd (record t { socket = c.socket })))
  round_message fuel t e p s = round fuel t e ∙ rw (p, s) refl

  signal-Done :
      {cmds : List (List ℕ)} (cmd : List ℕ) {r : Option Heard}
      → is_test_signal stale cmd ≡ true
      → Done stale cmds r
      → Done stale (cmd ∷ cmds) r
  signal-Done cmd y d = record {
    result = d.result;
    ran = d.ran;
    messages = rw y d.messages;
    left = d.left;
  }

  listen-Done :
      (fuel : ℕ) (cmds : List (List ℕ)) (t : Task)
      → Keeps msg_parse
      → All Fair cmds
      → length cmds < fuel
      → Holding cmds t.socket
      → Done stale cmds (listen msg_parse stale fuel t)
  unfolding is_positive
  listen-Done zero cmds t k f l h = absurd (omega arith)
  listen-Done (suc fuel) [] t k f l h =
      rw (round fuel t (recv_to_cmd-none max_datasize t.socket h.opened few))
        (record { result = _; ran = refl; messages = refl; left = h })
    where
      few : rd_size t.socket.rcv_queue ≤ pack_head_size
      few = omega (
        arith,
        rd_size-length t.socket.rcv_queue h.valid (omega (arith, h.bound)),
        ap length h.holds,
      )
  listen-Done (suc fuel) (cmd ∷ cmds) t k f l h =
      let (c, e, taken) =
        recv_to_cmd-Taken max_datasize t.socket cmd (frames cmds) f.0 f.0.1 h.opened h.valid h.bound
          h.holds in
      let after = Taken-Holding h taken in
      let p : is_positive c.ret ≡ true = ap is_positive taken.ret ∙ lt→ltb 0 (length cmd) f.0.0 in
      elim (Bool-cases (is_test_signal stale c.cmd)) [
        | inl y ↦ rw (round_signal fuel t e p y) (
            signal-Done cmd (rw (sym taken.same_cmd) y) (
              listen-Done fuel cmds (record t { socket = c.socket; tick = false }) k f.1
                (omega (arith, l)) after))
        | inr n ↦
            rw (round_message fuel t e p n, taken.same_cmd)
              (heard-Done cmd _ (rw (sym taken.same_cmd) n) (
                listen-Done fuel cmds (msg_parse cmd (record t { socket = c.socket })) k f.1
                  (omega (arith, l))
                  (Keeps-Holding k cmd cmds (record t { socket = c.socket }) after)))
      ]

  -- ListeningRecv on an open connection whose queue holds the frames of commands that a sender may
  -- send (1 to 65526 bytes, with the bound on the queue's size, and a msgParse that leaves the
  -- queue and the descriptor alone): with fuel for one more round than there are commands, the
  -- call ends with true, the messages handed to msgParse are the commands that are no test
  -- signals, each once and in order, and the queue is empty.
  pub listening_recv-messages :
      (fuel : ℕ) (cmds : List (List ℕ)) (t : Task)
      → Keeps msg_parse
      → All Fair cmds
      → length cmds < fuel
      → Holding cmds t.socket
      → (r : Heard) × (listening_recv msg_parse stale fuel false t ≡ some (true, r))
        × (r.messages ≡ requests stale cmds)
        × (contents r.task.socket.rcv_queue ≡ [])
  unfolding listening_recv
  listening_recv-messages fuel cmds t k f l h =
      let d = listen-Done fuel cmds t k f l h in (d.result, rw d.ran refl, d.messages, d.left.holds)

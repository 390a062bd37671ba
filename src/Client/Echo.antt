-- ===== src/Client/Echo.antt =====
-- include/zTCPClient.cpp: ListeningRecv hands the messages on and sends the test signals back.
use ugly_ff.Base.{
  ℕ, zero, suc, ◌+◌, ◌*◌, ◌≤◌, ◌<◌, ◌^◌, ◌≡◌, refl, ap, sym, ◌∙◌, ◌⊎◌, true, false, not, Bool-cases,
  inl, inr, List, [], ◌∷◌, append-nil, Option, some, if◌then◌else◌, lt→ltb, length, All, arith,
}
use ugly_ff.Buffer.{trunk_size, rd_size}
use ugly_ff.Buffer.Laws.{IsValid, rd_size-length}
use ugly_ff.Packet.{max_datasize, pack_head_size, ◌>>=◌}
use ugly_ff.Packet.Frames.{frame, frames, Fair}
use ugly_ff.Socket.{Socket}
use ugly_ff.Socket.Send.{Sending, Sent, send_cmd}
use ugly_ff.Socket.Send.Stream.{Sends, Fails, send_cmd-Outcome}
use ugly_ff.Socket.Receive.{Command, recv_to_cmd}
use ugly_ff.Socket.Receive.Take.{Taken, recv_to_cmd-Taken, recv_to_cmd-none}
use ugly_ff.Task.{is_test_signal, is_positive}
use ugly_ff.Task.Listening.{Holding}
use ugly_ff.Client.{Listened, client_listen, with_message, with_wire, after_echo}
use ugly_ff.Packet.Results.{Post-some}
use ugly_ff.Client.Beside.{Beside, send_cmd-Beside, recv_to_cmd-send_queue}
use ugly_ff.Client.Dealing.{
  LeavesAlone, Dealt, Listens, message_Listens, signal_Listens, ready, Dealt-message, Dealt-signal,
  Dealt-stopped,
}

module _ (msg_parse : List ℕ → Socket → Socket) (stale : ℕ) (kernel : ℕ → Sending) where
  abbrev listens : ℕ → Socket → Option Listened
  listens = client_listen msg_parse stale kernel

  module _ (fuel : ℕ) (s : Socket) (c : Command) (e : recv_to_cmd max_datasize s ≡ some c) where
    turn : listens (suc fuel) s ≡ (
        if not (is_positive c.ret)
        then some (record { ok = true; messages = []; wire = []; socket = c.socket })
        else if is_test_signal stale c.cmd
        then (do
          sent ← send_cmd (some c.cmd) false (kernel fuel) c.socket
          after_echo sent (listens fuel sent.socket))
        else with_message c.cmd (listens fuel (msg_parse c.cmd c.socket)))
    unfolding client_listen
    turn = rw e

    turn_message :
        is_positive c.ret ≡ true
        → is_test_signal stale c.cmd ≡ false
        → listens (suc fuel) s ≡ with_message c.cmd (listens fuel (msg_parse c.cmd c.socket))
    turn_message p n = turn ∙ rw (p, n) refl

    turn_signal :
        (sent : Sent)
        → is_positive c.ret ≡ true
        → is_test_signal stale c.cmd ≡ true
        → send_cmd (some c.cmd) false (kernel fuel) c.socket ≡ some sent
        → listens (suc fuel) s ≡ after_echo sent (listens fuel sent.socket)
    turn_signal sent p y sends = turn ∙ rw (p, y, sends) refl

  echoed :
      (sent : Sent) (rest : Option Listened)
      → sent.ok ≡ true
      → after_echo sent rest ≡ with_wire sent.wire rest
  echoed sent rest y = rw y

  module _ (cmd : List ℕ) (cmds : List (List ℕ)) (s : Socket) (c : Command)
      (l : Listens (cmd ∷ cmds) s) (t : Taken cmd (frames cmds) s c)
      (q : c.socket.send_queue ≡ s.send_queue) (fuel : ℕ)
      (ih : (u : Socket) → Listens cmds u → Dealt stale cmds u (listens fuel u)) where
    signal-Dealt :
        (sent : Sent)
        → is_test_signal stale cmd ≡ true
        → Beside c.socket sent
        → Sends (frame cmd) c.socket sent ⊎ Fails c.socket sent
        → Dealt stale (cmd ∷ cmds) s (after_echo sent (listens fuel sent.socket))
    signal-Dealt sent y b (inl sends) = rw (echoed sent (listens fuel sent.socket) sends.accepted) (
        Dealt-signal stale cmd cmds s c.socket sent _ y q sends
          (ih sent.socket (signal_Listens cmd cmds s c l t q sent b sends)))
    signal-Dealt sent y b (inr fails) = Dealt-stopped stale cmd cmds s c.socket sent _ y q fails

    message-Dealt :
        LeavesAlone msg_parse
        → is_test_signal stale cmd ≡ false
        → Dealt stale (cmd ∷ cmds) s (with_message cmd (listens fuel (msg_parse cmd c.socket)))
    message-Dealt k n =
        Dealt-message stale cmd cmds s (msg_parse cmd c.socket) _ n (k.waiting cmd c.socket ∙ q)
          (ih (msg_parse cmd c.socket) (message_Listens cmd cmds s c l t q msg_parse cmd k))

  listens-nil : (fuel : ℕ) (s : Socket) → Listens [] s → Dealt stale [] s (listens (suc fuel) s)
  unfolding is_positive
  listens-nil fuel s l = (
    _,
    turn fuel s _ (recv_to_cmd-none max_datasize s l.holding.opened few),
    inl record {
      went_on = refl;
      messages = refl;
      stream = sym (append-nil _);
      emptied = l.holding.holds;
    },
  )
    where
      few : rd_size s.rcv_queue ≤ pack_head_size
      few = omega (
        arith,
        rd_size-length s.rcv_queue l.holding.valid (omega (arith, l.holding.bound)),
        ap length l.holding.holds,
      )

  listens-Dealt :
      (fuel : ℕ) (cmds : List (List ℕ)) (s : Socket)
      → LeavesAlone msg_parse
      → All Fair cmds
      → length cmds < fuel
      → Listens cmds s
      → Dealt stale cmds s (listens fuel s)
  unfolding is_positive
  listens-Dealt zero cmds s k f h l = absurd (omega arith)
  listens-Dealt (suc fuel) [] s k f h l = listens-nil fuel s l
  listens-Dealt (suc fuel) (cmd ∷ cmds) s k f h l =
      let (c, e, t) =
        recv_to_cmd-Taken max_datasize s cmd (frames cmds) f.0 f.0.1 l.holding.opened
          l.holding.valid l.holding.bound l.holding.holds in
      let q : c.socket.send_queue ≡ s.send_queue =
        Post-some (recv_to_cmd-send_queue max_datasize s) e in
      let p : is_positive c.ret ≡ true = ap is_positive t.ret ∙ lt→ltb 0 (length cmd) f.0.0 in
      let ih =
        λ (u : Socket) (v : Listens cmds u). listens-Dealt fuel cmds u k f.1 (omega (arith, h)) v in
      elim (Bool-cases (is_test_signal stale cmd)) [
        | inr n ↦
            rw (turn_message fuel s c e p (rw t.same_cmd n), t.same_cmd)
              (message-Dealt cmd cmds s c l t q fuel ih k n)
        | inl y ↦
            let (sent, sends, outcome) =
              send_cmd-Outcome cmd false (kernel fuel) c.socket f.0.0 (omega (arith, f.0.1))
                (ready cmd cmds s c l t q) in
            rw (turn_signal fuel s c e sent p (rw t.same_cmd y) (rw t.same_cmd sends)) (
              signal-Dealt cmd cmds s c l t q fuel ih sent y
                (Post-some (send_cmd-Beside cmd (kernel fuel) c.socket) sends) outcome)
      ]

-- ListeningRecv of a client whose open socket holds the frames of commands that a server may send
-- (1 to 65526 bytes, with the bounds on the queues' sizes, and a msgParse that leaves the socket's
-- queues and descriptor alone): with fuel for one more round than there are commands, it hands the
-- commands that are no test signals to msgParse, once each and in order, and sends the test signals
-- back: what went to the kernel and what waits is what waited before followed by their frames. It
-- returns true with nothing left to read; or, where a signal cannot be sent, false, with all that
-- came before this signal dealt with in this way.
pub client_listen-Dealt :
    (msg_parse : List ℕ → Socket → Socket) (stale : ℕ) (kernel : ℕ → Sending) (fuel : ℕ)
    (cmds : List (List ℕ)) (s : Socket)
    → LeavesAlone msg_parse
    → All Fair cmds
    → length cmds < fuel
    → Holding cmds s
    → IsValid s.send_queue
    → s.send_queue.max_size + 2 * trunk_size * length cmds < 2 ^ 31
    → Dealt stale cmds s (client_listen msg_parse stale kernel fuel s)
client_listen-Dealt msg_parse stale kernel fuel cmds s k f h holding v b =
    listens-Dealt msg_parse stale kernel fuel cmds s k f h
      record { holding = holding; valid = v; bound = b }

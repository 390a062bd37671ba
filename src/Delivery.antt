-- ===== src/Delivery.antt =====
-- A connection from end to end: zSocket::sendCmd and zSocket::sync on one side, zSocket::RecvData
-- and zTCPTask::ListeningRecv on the other.
use ugly_ff.Base.{
  ℕ, ◌+◌, ◌*◌, ◌≤◌, ◌<◌, ◌^◌, ◌≡◌, refl, ap, sym, ◌∙◌, subst, true, false, List, [], ◌∷◌, ◌++◌,
  append-nil, Option, some, length, All, arith,
}
use ugly_ff.Buffer.{trunk_size}
use ugly_ff.Buffer.Laws.{IsValid, contents}
use ugly_ff.Packet.Frames.{frames, Fair}
use ugly_ff.Socket.{Socket, is_invalid}
use ugly_ff.Socket.Send.Session.{Call, Session, session, Sendable, session-stream}
use ugly_ff.Socket.Receive.Step.{IsFront}
use ugly_ff.Socket.Receive.Stream.{Assembling, Partial}
use ugly_ff.Socket.Receive.Run.{Progress, receive, Busy, Run, receive-Run, receive-delivers}
use ugly_ff.Task.{Task, Heard, listening_recv}
use ugly_ff.Task.Listening.{Keeps, Holding, requests, listening_recv-messages}

-- a receiving socket with nothing in it, with room for `n` more calls
pub record Idle (n : ℕ) (s : Socket) : Type 0 where
  pub opened : is_invalid s.sock ≡ false
  pub front : IsFront s.recv_buffer
  pub no_part : contents s.recv_buffer ≡ []
  pub queue : IsValid s.rcv_queue
  pub no_message : contents s.rcv_queue ≡ []
  pub bound : s.rcv_queue.max_size + 2 * trunk_size * n < 2 ^ 62

-- a sending socket with nothing in it, before the calls `cs`
pub record Clear (cs : List Call) (s : Socket) : Type 0 where
  pub queue : IsValid s.send_queue
  pub empty : contents s.send_queue ≡ []
  pub bound : s.send_queue.max_size + 2 * trunk_size * length cs < 2 ^ 31
  pub sendable : All Sendable cs

-- what went out of a session that has nothing left to send
pub session-wire :
    (cs : List Call) (a : Socket) {t : Session}
    → Clear cs a
    → session cs a ≡ some t
    → contents t.socket.send_queue ≡ []
    → t.wire ≡ frames t.cmds
session-wire cs a {t} c e drained =
    let (u, run, _, stream) = session-stream cs a c.sendable c.queue c.bound in
    let same : u ≡ t = cc in
    sym (append-nil t.wire)
    ∙ ap (λ xs. t.wire ++ xs) (sym drained)
    ∙ subst (λ w. w.wire ++ contents w.socket.send_queue ≡ contents a.send_queue ++ frames w.cmds)
        same stream
    ∙ ap (λ xs. xs ++ frames t.cmds) c.empty

-- An empty buffer holds less than the next message.
pub nothing-Partial : (cmds : List (List ℕ)) (c : List ℕ) → All Fair cmds → c ≡ [] → Partial cmds c
nothing-Partial [] c fair e = tt
nothing-Partial (cmd ∷ cmds) c fair e = omega (arith, ap length e)

pub after-Holding :
    (n : ℕ) (ks : List (Option ℕ)) (cmds : List (List ℕ)) (wire : List ℕ) (s : Socket)
    {p : Progress}
    → length ks ≡ n
    → Idle n s
    → (run : Run ks cmds wire s) → run.result ≡ p
    → contents p.socket.rcv_queue ≡ contents s.rcv_queue ++ frames cmds
    → Holding cmds p.socket
after-Holding n ks cmds wire s l idle run same got = record {
  opened = rw (sym same) (ap is_invalid run.same_sock ∙ idle.opened);
  valid = rw (sym same) run.next.queue;
  bound = rw (sym same) (omega (arith, run.bound, idle.bound, l));
  holds = got ∙ ap (λ xs. xs ++ frames cmds) idle.no_message;
}

-- Where a session of sendCmd and sync has left nothing to send, its commands have 1 to 65526 bytes,
-- the other side's socket is open and has nothing in it, and RecvData is called at least as often as
-- there are bytes, with something to receive each time: then ListeningRecv hands exactly the
-- session's accepted commands that are no test signals to msgParse, each once and in order,
-- however the kernels cut the stream. (msgParse leaves the queue and the descriptor alone, and
-- there is fuel for one more round than there are commands.)
pub session-messages :
    (msg_parse : List ℕ → Task → Task) (stale fuel : ℕ) (cs : List Call) (a : Socket) {t : Session}
    (ks : List (Option ℕ)) (u : Task)
    → Keeps msg_parse
    → Clear cs a
    → session cs a ≡ some t
    → contents t.socket.send_queue ≡ []
    → All Fair t.cmds
    → Idle (length ks) u.socket
    → All Busy ks
    → length t.wire ≤ length ks
    → length t.cmds < fuel
    → (p : Progress) × (receive ks t.wire u.socket ≡ some p)
      × ((r : Heard) × (listening_recv msg_parse stale fuel false (record u { socket = p.socket })
            ≡ some (true, r))
          × (r.messages ≡ requests stale t.cmds))
session-messages msg_parse stale fuel cs a {t} ks u keeps clear e drained fair idle busy enough
      more =
    let wire = session-wire cs a clear e drained in
    let start : Assembling t.cmds t.wire u.socket = record {
      front = idle.front;
      queue = idle.queue;
      stream = ap (λ xs. xs ++ t.wire) idle.no_part ∙ wire;
      part = nothing-Partial t.cmds _ fair idle.no_part;
    } in
    let run = receive-Run ks t.cmds t.wire u.socket fair idle.bound start in
    let (p, ran, _, got) =
      receive-delivers ks t.cmds t.wire u.socket fair busy enough idle.bound start in
    let same : run.result ≡ p = cc in
    let whole = after-Holding (length ks) ks t.cmds t.wire u.socket refl idle run same got in
    let (r, heard, messages, _) =
      listening_recv-messages msg_parse stale fuel t.cmds (record u { socket = p.socket }) keeps
        fair more whole in
    (p, ran, (r, heard, messages))

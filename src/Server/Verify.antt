-- ===== src/Server/Verify.antt =====
-- What verifyConn answers to the first message of a connection.
use ugly_ff.Base.{
  ℕ, ◌<◌, ◌^◌, ◌≡◌, refl, ap, ◌∙◌, inl, inr, true, Bool-cases, List, ◌∷◌, ◌++◌, some, if◌then◌else◌,
  lt→ltb, length, length-append, to_int-small, arith,
}
use ugly_ff.Buffer.{rd_size}
use ugly_ff.Buffer.Laws.{contents, rd_size-length, rd_size-le}
use ugly_ff.Packet.{max_datasize}
use ugly_ff.Packet.Frames.{frame, frames, Fair, length-frame}
use ugly_ff.Socket.{Socket, recv_to_buf_no_poll}
use ugly_ff.Socket.Receive.{Command, recv_to_cmd}
use ugly_ff.Socket.Receive.Take.{recv_to_cmd-Taken}
use ugly_ff.Task.{is_positive}
use ugly_ff.Task.Listening.{Holding}
use ugly_ff.TaskPool.Rounds.{success, failure}
use ugly_ff.Server.{ServerTask, is_startup_request, verify_type, answer_to, verify_conn}

-- an epoll socket with something in its queue
ready :
    (s : Socket) (n : ℕ)
    → s.use_epoll ≡ true
    → rd_size s.rcv_queue ≡ n
    → 0 < n
    → n < 2 ^ 31
    → is_positive (recv_to_buf_no_poll s) ≡ true
unfolding recv_to_buf_no_poll is_positive
ready s n e f h k = rw (e, f, to_int-small n k) (lt→ltb 0 n h)

asked :
    (stale : ℕ) (s : ServerTask) {c : Command}
    → is_positive (recv_to_buf_no_poll s.task.socket) ≡ true
    → recv_to_cmd max_datasize s.task.socket ≡ some c
    → verify_conn stale s ≡ some (answer_to stale s c)
unfolding verify_conn
asked stale s p e = rw (p, e) refl

answered :
    (stale : ℕ) (s : ServerTask) (c : Command)
    → is_positive c.ret ≡ true
    → answer_to stale s c ≡ (
      if is_startup_request stale c.cmd then success else failure,
      record s { task = record s.task { socket = c.socket } },
    )
unfolding answer_to verify_type
answered stale s c p = elim (Bool-cases (is_startup_request stale c.cmd)) [
  | inl y ↦ rw (p, y) refl
  | inr n ↦ rw (p, n) refl
]

-- A connection on epoll whose queue begins with the frame of a command of 1 to 65526 bytes (and is
-- less than 2^31 bytes long) is accepted if the command is a startup request, and refused if it is
-- any other; either way exactly this command is taken off the queue.
pub verify_conn-first :
    (stale : ℕ) (cmd : List ℕ) (cmds : List (List ℕ)) (s : ServerTask)
    → Fair cmd
    → s.task.socket.use_epoll ≡ true
    → s.task.socket.rcv_queue.max_size < 2 ^ 31
    → Holding (cmd ∷ cmds) s.task.socket
    → (r : ServerTask) × (verify_conn stale s
        ≡ some (if is_startup_request stale cmd then success else failure, r))
      × (contents r.task.socket.rcv_queue ≡ frames cmds)
verify_conn-first stale cmd cmds s fair epoll bound h =
    let (c, e, taken) =
      recv_to_cmd-Taken max_datasize s.task.socket cmd (frames cmds) fair fair.1 h.opened h.valid
        h.bound h.holds in
    let p : is_positive c.ret ≡ true =
      ap is_positive taken.ret ∙ unfold is_positive in lt→ltb 0 (length cmd) fair.0 in
    (
      record s { task = record s.task { socket = c.socket } },
      asked stale s some_there e
          ∙ ap some (answered stale s c p)
          ∙ ap
              (λ xs. some (
                if is_startup_request stale xs then success else failure,
                record s { task = record s.task { socket = c.socket } },
              ))
              taken.same_cmd,
      taken.holds,
    )
  where
    size : rd_size s.task.socket.rcv_queue ≡ length (frame cmd ++ frames cmds)
    size =
        rd_size-length s.task.socket.rcv_queue h.valid (omega (arith, h.bound)) ∙ ap length h.holds

    some_there : is_positive (recv_to_buf_no_poll s.task.socket) ≡ true
    some_there =
        ready s.task.socket (rd_size s.task.socket.rcv_queue) epoll refl
          (omega (arith, size, length-append (frame cmd) (frames cmds), length-frame cmd))
          (omega
            (arith, bound, rd_size-le s.task.socket.rcv_queue h.valid (omega (arith, h.bound))))

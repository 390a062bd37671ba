-- ===== src/Server/Login.antt =====
-- A server's way into the management server: zSocket::sendCmd and zSocket::sync at the server's end,
-- zSocket::RecvData and ServerTask::verifyConn at the other.
use ugly_ff.Base.{
  ℕ, suc, zero, not, ◌||◌, sub64, ◌+◌, ◌*◌, ◌≤◌, ◌<◌, ◌^◌, ◌≡◌, refl, ap, sym, ◌∙◌, subst, true,
  List, [], ◌∷◌, ◌++◌, Option, none, some, if◌then◌else◌, length, All, arith, ltb, ◌==◌,
}
use ugly_ff.Buffer.{trunk_size, put, reset, rd_size, rd_buf}
use ugly_ff.Buffer.Laws.{contents}
use ugly_ff.Packet.{header₀, header₁, pack_head_size, max_datasize, head_len}
use ugly_ff.Packet.Results.{Post, no_result, result, Post-some, Post-bind, Post-if, Post-chain}
use ugly_ff.Packet.Frames.{frames, Fair}
use ugly_ff.Socket.{Socket}
use ugly_ff.Socket.Send.Session.{Call, Session, session}
use ugly_ff.Socket.Receive.{deliver, recv_byte, recv_data, finish, Received}
use ugly_ff.Socket.Receive.Stream.{Assembling}
use ugly_ff.Socket.Receive.Run.{Progress, receive, Busy, receive-Run, receive-delivers}
use ugly_ff.Task.Listening.{Holding}
use ugly_ff.TaskPool.Rounds.{success, failure}
use ugly_ff.Server.{ServerTask, is_startup_request, verify_conn}
use ugly_ff.Server.Verify.{verify_conn-first}
use ugly_ff.Delivery.{Idle, Clear, session-wire, nothing-Partial, after-Holding}

-- RecvData leaves the flag alone that says that the socket is on an epoll.
abbrev SamePolling : Socket → Socket → Type 0
SamePolling s t = t.use_epoll ≡ s.use_epoll

deliver-SamePolling : (fuel len : ℕ) (s : Socket) → Post (SamePolling s) (deliver fuel len s)
unfolding deliver
deliver-SamePolling zero len s = no_result
deliver-SamePolling (suc fuel) len s =
    Post-if _ _ _
      (Post-bind (put (rd_buf s.recv_buffer (len + pack_head_size)) s.rcv_queue) _
        (λ q. deliver-SamePolling fuel len _))
      (result refl)

recv_byte-SamePolling :
    (size : ℕ) (k : Option ℕ) (wire : List ℕ) (s : Socket)
    → SamePolling s (recv_byte size k wire s).socket
unfolding recv_byte
recv_byte-SamePolling size none wire s = refl
recv_byte-SamePolling size (some k) wire s = refl

finish-SamePolling :
    (len : ℕ) (s : Socket) (r : Received)
    → SamePolling s r.socket
    → Post (λ u. SamePolling s u.socket) (finish len r)
finish-SamePolling len s r same =
    Post-chain _ (deliver-SamePolling 2 len r.socket) (λ t kept. result (kept ∙ same))

recv_data-SamePolling :
    (k : Option ℕ) (wire : List ℕ) (s : Socket)
    → Post (λ r. SamePolling s r.socket) (recv_data k wire s)
unfolding recv_data
recv_data-SamePolling k wire s =
    Post-if (rd_size s.recv_buffer == pack_head_size) _ _
      (Post-if
        (not (s.recv_buffer.buffer s.recv_buffer.off_ptr == header₀)
          || not (s.recv_buffer.buffer (s.recv_buffer.off_ptr + 1) == header₁))
        _ _ (finish-SamePolling 0 s _ refl)
        (finish-SamePolling (head_len s.recv_buffer) s _ (recv_byte-SamePolling _ k wire s)))
      (Post-if (ltb (rd_size s.recv_buffer) pack_head_size) _ _
        (finish-SamePolling 0 s _
          (recv_byte-SamePolling (sub64 pack_head_size (rd_size s.recv_buffer)) k wire s))
        (Post-if (ltb max_datasize (head_len s.recv_buffer)) _ _
          (finish-SamePolling (head_len s.recv_buffer) s _ (
            recv_byte-SamePolling pack_head_size k wire
              (record s { recv_buffer = reset s.recv_buffer })))
          (finish-SamePolling (head_len s.recv_buffer) s _ (
            recv_byte-SamePolling
              (sub64 (pack_head_size + head_len s.recv_buffer) (rd_size s.recv_buffer)) k wire s))))

Post-onward :
    (s t : Socket) {o : Option Progress}
    → Post (λ p. SamePolling t p.socket) o
    → SamePolling s t
    → Post (λ p. SamePolling s p.socket) o
Post-onward s t no_result same = no_result
Post-onward s t (result kept) same = result (kept ∙ same)

receive-SamePolling :
    (ks : List (Option ℕ)) (wire : List ℕ) (s : Socket)
    → Post (λ p. SamePolling s p.socket) (receive ks wire s)
unfolding receive
receive-SamePolling [] wire s = result refl
receive-SamePolling (k ∷ ks) wire s =
    Post-chain _ (recv_data-SamePolling k wire s)
      (λ r same. Post-onward s r.socket (receive-SamePolling ks r.wire r.socket) same)

-- Where the first command of a session of sendCmd and sync that has nothing left to send has 1 to
-- 65526 bytes (as the others have), the other side's socket is on an epoll, open and empty, and
-- RecvData is called at least as often as there are bytes, with something to receive each time:
-- then verifyConn accepts the connection if this command is a startup request, and refuses it if it
-- is any other, however the kernels cut the stream; what follows the command stays in the queue.
-- (The receiving queue stays below 2^31 bytes.)
pub session-verified :
    (stale : ℕ) (cs : List Call) (a : Socket) {t : Session} {cmd : List ℕ} {cmds : List (List ℕ)}
    (ks : List (Option ℕ)) (u : ServerTask)
    → Clear cs a
    → session cs a ≡ some t
    → contents t.socket.send_queue ≡ []
    → t.cmds ≡ cmd ∷ cmds
    → All Fair t.cmds
    → Idle (length ks) u.task.socket
    → u.task.socket.use_epoll ≡ true
    → u.task.socket.rcv_queue.max_size + 2 * trunk_size * length ks < 2 ^ 31
    → All Busy ks
    → length t.wire ≤ length ks
    → (p : Progress) × (receive ks t.wire u.task.socket ≡ some p)
      × ((r : ServerTask) × (verify_conn stale
              (record u { task = record u.task { socket = p.socket } })
            ≡ some (if is_startup_request stale cmd then success else failure, r))
          × (contents r.task.socket.rcv_queue ≡ frames cmds))
session-verified stale cs a {t} {cmd} {cmds} ks u clear e drained first fair idle epoll small busy
      enough =
    let s = u.task.socket in
    let start : Assembling t.cmds t.wire s = record {
      front = idle.front;
      queue = idle.queue;
      stream = ap (λ xs. xs ++ t.wire) idle.no_part ∙ session-wire cs a clear e drained;
      part = nothing-Partial t.cmds _ fair idle.no_part;
    } in
    let run = receive-Run ks t.cmds t.wire s fair idle.bound start in
    let (p, ran, _, got) = receive-delivers ks t.cmds t.wire s fair busy enough idle.bound start in
    let same : run.result ≡ p = cc in
    let whole = after-Holding (length ks) ks t.cmds t.wire s refl idle run same got in
    let polled : p.socket.use_epoll ≡ true =
      Post-some (receive-SamePolling ks t.wire s) ran ∙ epoll in
    let bound : p.socket.rcv_queue.max_size < 2 ^ 31 =
      rw (sym same) (omega (arith, run.bound, small)) in
    let fairs : All Fair (cmd ∷ cmds) = subst (All Fair) first fair in
    (
      p,
      ran,
      verify_conn-first stale cmd cmds (record u { task = record u.task { socket = p.socket } })
          fairs.0 polled bound (subst (λ cs. Holding cs p.socket) first whole),
    )

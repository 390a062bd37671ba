-- ===== src/Socket.antt =====
-- class zSocket (include/engine.h, include/zSocket.cpp): its state, its life cycle, and its polling
-- calls. The kernel is the environment: what one of its calls returns, and how many bytes it moves,
-- is an argument of the model.
use ugly_ff.Base.{
  ◌%◌, ◌^◌, ℕ, Bool, true, false, List, [], ◌∷◌, Option, none, some, if◌then◌else◌, ◌==◌, ltb, not,
  ◌||◌, ℤ, pos, negsuc, minus_one, to_int, ◌*◌, sub64,
}
use ugly_ff.Buffer.{ByteBuffer, new_buffer, rd_size}
pub mod Life
pub mod Send
pub mod Receive

-- `errno` after a call that failed, as far as the code tells values apart
pub data Errno : Type 0 where
  eagain ewouldblock eintr other : Errno

pub record Socket : Type 0 where
  pub sock : ℤ
  pub rd_msec : ℕ
  pub wr_msec : ℕ
  pub recv_buffer : ByteBuffer
  pub send_queue : ByteBuffer
  pub rcv_queue : ByteBuffer
  pub use_epoll : Bool
  pub task_deleted : Bool
  pub deleted : Bool

-- INVALID_SOCKET
abbrev pub invalid_socket : ℤ
invalid_socket = negsuc 1

unfoldable pub is_invalid : ℤ → Bool
is_invalid (negsuc n) = n == 1
is_invalid (pos n) = false

-- zSocket::isValid
unfoldable pub is_valid : Socket → Bool
unfolding is_invalid
is_valid s = not (is_invalid s.sock)

-- The constructor. `m_bDeleted` is set by nothing, so it holds what `garbage` says; an
-- INVALID_SOCKET fails the assertion (`none`).
unfoldable pub new_socket : ℤ → Bool → Bool → Option Socket
unfolding is_invalid
new_socket fd use_epoll garbage =
    if is_invalid fd
    then none
    else some (record {
      sock = fd;
      rd_msec = 2100;
      wr_msec = 2100;
      recv_buffer = new_buffer;
      send_queue = new_buffer;
      rcv_queue = new_buffer;
      use_epoll = use_epoll;
      task_deleted = false;
      deleted = garbage;
    })

-- zSocket::DisConnet
unfoldable pub disconnect : Socket → Socket
disconnect s = record s { sock = invalid_socket }

-- zSocket::SafeDelete: whether the caller may free the socket, and the socket afterwards
unfoldable pub safe_delete : Socket → Bool × Socket
unfolding disconnect
safe_delete s =
    if not s.task_deleted
    then (false, disconnect s)
    else if s.deleted
    then (false, s)
    else (true, record s { deleted = true })

unfoldable pub set_read_timeout : ℕ → Socket → Socket
set_read_timeout msec s = record s { rd_msec = msec }

unfoldable pub set_write_timeout : ℕ → Socket → Socket
set_write_timeout msec s = record s { wr_msec = msec }

-- zSocket::recvToBuf_NoPoll
unfoldable pub recv_to_buf_no_poll : Socket → ℤ
recv_to_buf_no_poll s = if s.use_epoll then to_int (rd_size s.rcv_queue) else pos 0

-- zSocket::WaitRecv(false, timeout)
unfoldable pub poll_recv : Socket → ℤ
unfolding is_invalid
poll_recv s = if is_invalid s.sock then minus_one else to_int (rd_size s.rcv_queue)

-- zSocket::WaitSend(false, timeout)
unfoldable pub poll_send : Socket → ℤ
unfolding is_invalid
poll_send s = if is_invalid s.sock then minus_one else to_int (rd_size s.send_queue)

-- what a waiting thread finds in one round: the socket, as the other threads have left it, and the
-- clock, read after the round's sleep
pub record Round : Type 0 where
  pub socket : Socket
  pub clock : ℕ

-- `timeout * 1000`, an `unsigned int`
abbrev pub span : ℕ → ℕ
span timeout = timeout * 1000 % 2 ^ 32

-- while (timeout == 0 || GetTimeFromSystemPower() - EnterTime < timeout * 1000)
unfoldable pub goes_on : ℕ → ℕ → ℕ → Bool
goes_on timeout enter clock = (timeout == 0) || ltb (sub64 clock enter) (span timeout)

-- zSocket::WaitRecv(true, timeout) over the rounds, 0 behind the loop (the comment in the source
-- has -2); `none` where the rounds end before the loop does
unfoldable pub wait_recv : ℕ → ℕ → List Round → Option ℤ
unfolding is_invalid goes_on
wait_recv timeout enter [] = none
wait_recv timeout enter (r ∷ rs) =
    let rest = wait_recv timeout enter rs in
    if ltb 0 (rd_size r.socket.rcv_queue)
    then some (to_int (rd_size r.socket.rcv_queue))
    else if is_invalid r.socket.sock
    then some minus_one
    else if goes_on timeout enter r.clock
    then rest
    else some (pos 0)

-- zSocket::WaitSend(true, timeout), -1 behind the loop, which the source's comment takes to be out of
-- reach
unfoldable pub wait_send : ℕ → ℕ → List Round → Option ℤ
unfolding is_invalid goes_on
wait_send timeout enter [] = none
wait_send timeout enter (r ∷ rs) =
    let rest = wait_send timeout enter rs in
    if rd_size r.socket.send_queue == 0
    then some (pos 1)
    else if is_invalid r.socket.sock
    then some minus_one
    else if goes_on timeout enter r.clock
    then rest
    else some minus_one

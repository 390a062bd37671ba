-- ===== src/Epoll.antt =====
-- include/zEpoll.cpp: the wrapper of epoll, and zEpollRecvThread of include/engine.h, which receives
-- for all sockets. What epoll's calls return is an argument.
use ugly_ff.Base.{
  ℕ, zero, suc, Bool, true, false, ◌&&◌, ◌||◌, List, [], ◌∷◌, Option, none, some, if◌then◌else◌,
  ◌==◌, ltb, ℤ, pos, negsuc, minus_one,
}
use ugly_ff.Packet.{◌>>=◌}
use ugly_ff.Socket.{Socket, Errno, eagain, ewouldblock, eintr, other, disconnect}
use ugly_ff.Socket.Receive.{Received, recv_data}
use ugly_ff.Task.{is_positive}
pub mod Gains
pub mod Streams

pub record Epoll : Type 0 where
  pub max : ℕ
  pub epoll_fd : ℤ
  pub epoll_timeout : ℤ
  pub epoll_maxevents : ℕ
  pub has_events : Bool

unfoldable pub new_epoll : ℕ → ℕ → Epoll
new_epoll max maxevents = record {
  max = max;
  epoll_fd = minus_one;
  epoll_timeout = minus_one;
  epoll_maxevents = maxevents;
  has_events = false;
}

-- zEpoll::isValid
unfoldable pub epoll_is_valid : Epoll → Bool
unfolding is_positive
epoll_is_valid e = is_positive e.epoll_fd

-- zEpoll::create, where epoll_create returns `fd`
unfoldable pub create : ℤ → Epoll → ℤ × Epoll
unfolding epoll_is_valid
create fd e =
    let opened : Epoll = record e { epoll_fd = fd } in
    (fd, if epoll_is_valid opened then record opened { has_events = true } else opened)

-- zEpoll::add, mod and del, where epoll_ctl returns `ret`
unfoldable pub control : ℤ → Epoll → ℤ
unfolding epoll_is_valid
control ret e = if epoll_is_valid e then ret else minus_one

-- zEpoll::wait, where epoll_wait returns `ret`
unfoldable pub epoll_wait : ℤ → Epoll → ℤ
unfolding epoll_is_valid
epoll_wait ret e = if epoll_is_valid e then ret else negsuc 1

-- the bits of `events` that the thread looks at
pub record Mask : Type 0 where
  pub epollin : Bool
  pub epollerr : Bool
  pub epollhup : Bool

abbrev pub mask_in : Mask
mask_in = record { epollin = true; epollerr = false; epollhup = false }

abbrev pub mask_err : Mask
mask_err = record { epollin = false; epollerr = true; epollhup = false }

abbrev pub mask_hup : Mask
mask_hup = record { epollin = false; epollerr = false; epollhup = true }

-- the operator & of integers, and an integer as a condition
unfoldable pub land : Mask → Mask → Mask
land a b = record {
  epollin = a.epollin && b.epollin;
  epollerr = a.epollerr && b.epollerr;
  epollhup = a.epollhup && b.epollhup;
}

unfoldable pub is_set : Mask → Bool
is_set m = m.epollin || m.epollerr || m.epollhup

-- An event: the socket's address, what recv() will hand over, and what errno will hold after it
pub record Event : Type 0 where
  pub events : Mask
  pub ptr : Option ℕ
  pub hands : Option ℕ
  pub errno : Errno

-- the sockets by address, with the bytes that the kernel has for each; `terminated` is set by the
-- service's Terminate
pub record Net : Type 0 where
  pub sockets : ℕ → Socket
  pub wires : ℕ → List ℕ
  pub terminated : Bool

unfoldable pub put_at {ℓ} : {A : Type ℓ} → ℕ → A → (ℕ → A) → ℕ → A
put_at p x f q = if q == p then x else f q

unfoldable pub close_socket : ℕ → Net → Net
unfolding put_at disconnect
close_socket p n = record n { sockets = put_at p (disconnect (n.sockets p)) n.sockets }

unfoldable pub is_harmless : Errno → Bool
is_harmless eagain = true
is_harmless ewouldblock = true
is_harmless eintr = true
is_harmless other = false

unfoldable pub is_zero : ℤ → Bool
is_zero (pos n) = n == 0
is_zero (negsuc n) = false

-- the branch of EPOLLIN. The calls of epoll->add find the socket registered already, so that they
-- change nothing, and nobody looks at their result.
unfoldable pub receive_for : Event → ℕ → Net → Option Net
unfolding recv_data put_at close_socket is_zero is_harmless
receive_for ev p n = do
  r ← recv_data ev.hands (n.wires p) (n.sockets p)
  let got : Net = record n {
    sockets = put_at p r.socket n.sockets;
    wires = put_at p r.wire n.wires;
  }
  some (if is_zero r.ret then (if is_harmless ev.errno then got else close_socket p got) else got)

-- the body of the loop over the events
unfoldable pub handle : Event → Net → Option Net
unfolding land is_set close_socket receive_for
handle ev n =
    if is_set (land (land (land ev.events mask_err) ev.events) mask_hup)
    then elim ev.ptr [ none ↦ some n | some p ↦ some (close_socket p n) ]
    else if is_set (land ev.events mask_in)
    then elim ev.ptr [ none ↦ some n | some p ↦ receive_for ev p n ]
    else some n

unfoldable pub handle_all : List Event → Net → Option Net
unfolding handle
handle_all [] n = some n
handle_all (ev ∷ evs) n = do m ← handle ev n; handle_all evs m

-- one round of zEpollRecvThread::run, where wait returned `ret` and gave these events
unfoldable pub epoll_round : ℤ → List Event → Net → Option Net
unfolding handle_all
epoll_round (negsuc zero) evs n = some (record n { terminated = true })
epoll_round (negsuc (suc zero)) evs n = some (record n { terminated = true })
epoll_round _ evs n = handle_all evs n

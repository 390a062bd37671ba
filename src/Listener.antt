-- ===== src/Listener.antt =====
-- include/zTCPServer.cpp and class zTCPServer: the listening socket; class zAcceptThread
-- (include/engine.h): the loop that takes connections. What the system calls return is an argument.
use ugly_ff.Base.{
  ℕ, ◌+◌, ◌*◌, ◌/◌, ◌%◌, Bool, true, false, not, List, [], ◌∷◌, ◌++◌, Option, none, some,
  if◌then◌else◌, ℤ, pos, negsuc, is_minus_one,
}
use mathlib.Core.Option
use ugly_ff.Text.Case.{Text}
use ugly_ff.Socket.{invalid_socket, is_invalid}
pub mod Descriptors

-- struct sockaddr_in, with its port and address in network order
pub record SockAddr : Type 0 where
  pub sin_family : ℕ
  pub sin_port : ℕ
  pub sin_addr : ℕ

-- what `bzero` and memset leave
unfoldable pub zero_addr : SockAddr
zero_addr = record { sin_family = 0; sin_port = 0; sin_addr = 0 }

abbrev pub af_inet : ℕ
af_inet = 2

-- htons on a little-endian machine
unfoldable pub htons : ℕ → ℕ
htons port = port % 256 * 256 + port / 256

-- INADDR_ANY at a port
unfoldable pub any_addr : ℕ → SockAddr
unfolding htons zero_addr
any_addr port = record zero_addr { sin_family = af_inet; sin_port = htons port; sin_addr = 0 }

-- the options that Bind and connect set
pub data SockOpt : Type 0 where
  reuse_addr : SockOpt
  rcv_buf : ℕ → SockOpt
  snd_buf : ℕ → SockOpt

-- what the calls of one Bind return
pub record BindCalls : Type 0 where
  pub socket : ℤ
  pub setsockopt : ℤ → SockOpt → ℤ
  pub bind : ℤ → SockAddr → ℤ
  pub listen : ℤ → ℕ → ℤ

-- zTCPServer. `closed` has the descriptors that it has closed so far, in order.
pub record TcpServer : Type 0 where
  pub name : Text
  pub sock : ℤ
  pub addr : SockAddr
  pub closed : List ℤ

abbrev pub max_waitqueue : ℕ
max_waitqueue = 2000

abbrev pub window_size : ℕ
window_size = 64 * 1024

-- The constructor; `addr_` holds what was in its place.
unfoldable pub new_tcp_server : SockAddr → Text → TcpServer
new_tcp_server garbage name = record {
  name = name;
  sock = invalid_socket;
  addr = garbage;
  closed = [];
}

-- close(sock); sock = INVALID_SOCKET
unfoldable pub close_sock : TcpServer → TcpServer
close_sock s = record s { sock = invalid_socket; closed = s.closed ++ s.sock ∷ [] }

-- the destructor
unfoldable pub destroy_server : TcpServer → TcpServer
unfolding close_sock is_invalid
destroy_server s = if not (is_invalid s.sock) then close_sock s else s

-- Bind from `socket` on, which gave the descriptor `s.sock`
unfoldable pub bind_sock : BindCalls → ℕ → TcpServer → Bool × TcpServer
unfolding close_sock is_minus_one any_addr
bind_sock calls port s =
    if is_minus_one s.sock
    then (false, s)
    else if is_minus_one (calls.setsockopt s.sock reuse_addr)
    then (false, close_sock s)
    else if is_minus_one (calls.setsockopt s.sock (rcv_buf window_size))
    then (false, close_sock s)
    else if is_minus_one (calls.setsockopt s.sock (snd_buf window_size))
    then (false, close_sock s)
    else if is_minus_one (calls.bind s.sock (any_addr port))
    then (false, close_sock s)
    else if is_minus_one (calls.listen s.sock max_waitqueue)
    then (false, close_sock s)
    else (true, record s { addr = any_addr port })

-- zTCPServer::Bind; its name is not used.
unfoldable pub bind : BindCalls → ℕ → TcpServer → Bool × TcpServer
unfolding bind_sock is_invalid
bind calls port s =
    if not (is_invalid s.sock)
    then (false, s)
    else bind_sock calls port (record s { sock = calls.socket })

-- zTCPServer::Accept: the address is cleared, and filled by accept(), whose result is returned.
unfoldable pub accept : (ℤ → SockAddr → ℤ × SockAddr) → TcpServer → ℤ × SockAddr
unfolding zero_addr
accept system s = system s.sock zero_addr

unfoldable pub get_sock_fd : TcpServer → ℤ
get_sock_fd s = s.sock

unfoldable pub get_addr : TcpServer → SockAddr
get_addr s = s.addr

-- zTCPServer::getIP, by the library's inet_ntoa
unfoldable pub get_ip : (ℕ → Text) → TcpServer → Text
get_ip inet_ntoa s = inet_ntoa s.addr.sin_addr

-- One round of zAcceptThread::run: whether the thread is to end, the service's listening socket, if
-- there is one, and what accept() does.
pub record AcceptRound : Type 0 where
  pub is_final : Bool
  pub server : Option TcpServer
  pub system : ℤ → SockAddr → ℤ × SockAddr

abbrev pub handed_on : ℤ × SockAddr → List (ℕ × SockAddr) → List (ℕ × SockAddr)
handed_on (pos fd, addr) rest = (fd, addr) ∷ rest
handed_on (negsuc n, addr) rest = rest

-- what one round hands to newTCPTask
unfoldable pub accept_in :
    Option TcpServer → (ℤ → SockAddr → ℤ × SockAddr) → List (ℕ × SockAddr) → List (ℕ × SockAddr)
unfolding accept
accept_in none system rest = rest
accept_in (some s) system rest = handed_on (accept system s) rest

-- zAcceptThread::run over the rounds: the connections that it hands to newTCPTask, in order; `none`
-- where the rounds end before the thread does
unfoldable pub accept_run : List AcceptRound → Option (List (ℕ × SockAddr))
unfolding accept_in
accept_run [] = none
accept_run (r ∷ rs) =
    let rest = Option.map (accept_in r.server r.system) (accept_run rs) in
    if r.is_final then some [] else rest

-- ===== src/Client.antt =====
-- include/zTCPClient.cpp, classes zTCPClient and zTCPBufferClient (include/engine.h): the client's
-- end of a connection, and the loop of its thread.
use ugly_ff.Base.{
  is_minus_one, ℕ, zero, suc, ◌*◌, Bool, true, false, not, List, [], ◌∷◌, ◌++◌, Option, none, some,
  if◌then◌else◌, ltb, ℤ, pos, negsuc,
}
use ugly_ff.Text.Case.{Text}
use ugly_ff.Socket.{Socket, new_socket, safe_delete, poll_recv, poll_send}
use ugly_ff.Socket.Send.{Sending, Sent, send_cmd, sync}
use ugly_ff.Socket.Receive.{Command, recv_to_cmd}
use ugly_ff.Packet.{max_datasize, ◌>>=◌}
use ugly_ff.Task.{is_positive, is_test_signal}
use ugly_ff.Listener.{SockAddr, SockOpt, rcv_buf, snd_buf, zero_addr, htons, af_inet}
mod Beside
pub mod Dealing
pub mod Echo

-- `closed` has the descriptors that connect() has closed, and `leaked` the sockets whose pointer was
-- overwritten.
pub record Client : Type 0 where
  pub ip : Text
  pub port : ℕ
  pub psocket : Option Socket
  pub compress : Bool
  pub usleep_time : ℕ
  pub buffered : Bool
  pub closed : List ℤ
  pub leaked : List Socket

-- the constructor of zTCPBufferClient, and with it zTCPClient's
unfoldable pub new_client : Text → ℕ → Bool → ℕ → Client
new_client ip port compress usleep_time = record {
  ip = ip;
  port = port;
  psocket = none;
  compress = compress;
  usleep_time = usleep_time;
  buffered = false;
  closed = [];
  leaked = [];
}

unfoldable pub set_ip : Text → Client → Client
set_ip ip c = record c { ip = ip }

unfoldable pub client_set_port : ℕ → Client → Client
client_set_port port c = record c { port = port }

unfoldable pub set_usleep_time : ℕ → Client → Client
set_usleep_time utime c = record c { usleep_time = utime }

-- what the system calls of one connect() return; `garbage` was in the new zSocket's place.
pub record ConnectCalls : Type 0 where
  pub socket : ℤ
  pub setsockopt : ℤ → SockOpt → ℤ
  pub connect : ℤ → SockAddr → ℤ
  pub inet_addr : Text → ℕ
  pub garbage : Bool

abbrev pub client_window : ℕ
client_window = 128 * 1024

unfoldable pub server_addr : ConnectCalls → Client → SockAddr
unfolding zero_addr htons
server_addr calls c = record zero_addr {
  sin_family = af_inet;
  sin_port = htons c.port;
  sin_addr = calls.inet_addr c.ip;
}

abbrev pub sockets_of : Option Socket → List Socket
sockets_of none = []
sockets_of (some s) = s ∷ []

unfoldable pub close_fd : ℤ → Client → Client
close_fd fd c = record c { closed = c.closed ++ fd ∷ [] }

-- `pSocket = new zSocket(nSocket, &addr, compress)`; `none` is the constructor's assertion.
unfoldable pub take_socket : ConnectCalls → Client → Option (Bool × Client)
unfolding new_socket
take_socket calls c = do
  s ← new_socket calls.socket true calls.garbage
  some (true, record c { psocket = some s; leaked = sockets_of c.psocket ++ c.leaked })

-- zTCPClient::connect
unfoldable pub connect : ConnectCalls → Client → Option (Bool × Client)
unfolding take_socket close_fd server_addr is_minus_one
connect calls c =
    if is_minus_one calls.socket
    then some (false, c)
    else if is_minus_one (calls.setsockopt calls.socket (rcv_buf client_window))
    then some (false, close_fd calls.socket c)
    else if is_minus_one (calls.setsockopt calls.socket (snd_buf client_window))
    then some (false, close_fd calls.socket c)
    else if is_minus_one (calls.connect calls.socket (server_addr calls c))
    then some (false, close_fd calls.socket c)
    else take_socket calls c

-- zTCPClient::connect(ip, port)
unfoldable pub connect_to : ConnectCalls → Text → ℕ → Client → Option (Bool × Client)
unfolding connect
connect_to calls ip port c = connect calls (record c { ip = ip; port = port })

-- zTCPClient::close; of zTCPBufferClient::close too, whose sync does nothing. A socket that
-- SafeDelete does not let go is not freed.
unfoldable pub drop_socket : Option Socket → Client → Client
unfolding safe_delete
drop_socket none c = c
drop_socket (some s) c =
    let (frees, s') = safe_delete s in
    record c { psocket = none; leaked = if frees then c.leaked else s' ∷ c.leaked }

unfoldable pub close : Client → Client
unfolding drop_socket
close c = drop_socket c.psocket c

-- a command sent, or the queue flushed: the result, the bytes that the kernel took, and the client
pub record ClientSent : Type 0 where
  pub ok : Bool
  pub wire : List ℕ
  pub client : Client

unfoldable pub client_sent : Client → Sent → ClientSent
client_sent c r = record { ok = r.ok; wire = r.wire; client = record c { psocket = some r.socket } }

-- zTCPClient::sendCmd of a command that is there. Without a socket it is a null pointer's call, and
-- `none` is a fault.
unfoldable pub send_over : List ℕ → Sending → Client → Option Socket → Option ClientSent
unfolding client_sent
send_over cmd sending c none = none
send_over cmd sending c (some s) = do
  r ← send_cmd (some cmd) false sending s
  some (client_sent c r)

unfoldable pub client_send_cmd : Option (List ℕ) → Sending → Client → Option ClientSent
unfolding send_over
client_send_cmd none sending c = some (record { ok = false; wire = []; client = c })
client_send_cmd (some cmd) sending c = send_over cmd sending c c.psocket

-- zTCPBufferClient::ListeningSend
unfoldable pub sync_over : Sending → Client → Option Socket → Option ClientSent
unfolding client_sent
sync_over sending c none = some (record { ok = false; wire = []; client = c })
sync_over sending c (some s) = do r ← sync sending s; some (client_sent c r)

unfoldable pub client_listening_send : Sending → Client → Option ClientSent
unfolding sync_over
client_listening_send sending c = sync_over sending c c.psocket

-- What ListeningRecv gave: its result, the messages for msgParse, the bytes that the kernel took of
-- the test signals sent back, and the socket.
pub record Listened : Type 0 where
  pub ok : Bool
  pub messages : List (List ℕ)
  pub wire : List ℕ
  pub socket : Socket

abbrev pub with_message : List ℕ → Option Listened → Option Listened
with_message cmd rest = do r ← rest; some (record r { messages = cmd ∷ r.messages })

abbrev pub with_wire : List ℕ → Option Listened → Option Listened
with_wire wire rest = do r ← rest; some (record r { wire = wire ++ r.wire })

-- what follows a test signal that was sent back, or could not be
abbrev pub after_echo : Sent → Option Listened → Option Listened
after_echo sent rest =
    if sent.ok
    then with_wire sent.wire rest
    else some (record { ok = false; messages = []; wire = sent.wire; socket = sent.socket })

module _ (msg_parse : List ℕ → Socket → Socket) (stale : ℕ) (kernel : ℕ → Sending) where
  -- The loop of zTCPBufferClient::ListeningRecv over the client's socket; msgParse may use the
  -- socket. `none` is a fault, or fuel that ran out.
  unfoldable pub client_listen : ℕ → Socket → Option Listened
  unfolding is_positive is_test_signal
  client_listen zero s = none
  client_listen (suc fuel) s = do
    c ← recv_to_cmd max_datasize s
    let signal = (do
      sent ← send_cmd (some c.cmd) false (kernel fuel) c.socket
      let rest = client_listen fuel sent.socket
      after_echo sent rest)
    let message = client_listen fuel (msg_parse c.cmd c.socket)
    if not (is_positive c.ret)
        then some (record { ok = true; messages = []; wire = []; socket = c.socket })
        else if is_test_signal stale c.cmd
        then signal
        else with_message c.cmd message

-- One round of zTCPBufferClient::run: what the other threads did to the socket before it, the kernel
-- at each sending, and the fuel of ListeningRecv.
pub record ClientRound : Type 0 where
  pub others : Socket → Socket
  pub kernel : ℕ → Sending
  pub flush : Sending
  pub fuel : ℕ

-- whether the loop goes on, with what the round gave
pub record RoundResult : Type 0 where
  pub goes_on : Bool
  pub messages : List (List ℕ)
  pub wire : List ℕ
  pub socket : Socket

-- the second half of a round, from WaitSend on; `retcode > 1` is asked.
unfoldable pub round_send : Sending → ℤ → Listened → Option RoundResult
round_send flush (negsuc n) l = some (record {
  goes_on = not (is_minus_one (negsuc n));
  messages = l.messages;
  wire = l.wire;
  socket = l.socket;
})
round_send flush (pos n) l =
    let flushed = (do
      sent ← sync flush l.socket
      some (record {
        goes_on = sent.ok;
        messages = l.messages;
        wire = l.wire ++ sent.wire;
        socket = sent.socket;
      })) in
    if ltb 1 n
    then flushed
    else some (record { goes_on = true; messages = l.messages; wire = l.wire; socket = l.socket })

-- what follows ListeningRecv
unfoldable pub round_listened : Sending → Listened → Option RoundResult
unfolding poll_send round_send
round_listened flush l =
    if l.ok
    then round_send flush (poll_send l.socket) l
    else some (record { goes_on = false; messages = l.messages; wire = l.wire; socket = l.socket })

module _ (msg_parse : List ℕ → Socket → Socket) (stale : ℕ) where
  -- the first half, by what WaitRecv(false) gave
  unfoldable pub round_recv : ClientRound → ℤ → Socket → Option RoundResult
  unfolding client_listen round_listened
  round_recv r (negsuc n) s =
      if is_minus_one (negsuc n)
      then some (record { goes_on = false; messages = []; wire = []; socket = s })
      else round_listened r.flush (record { ok = true; messages = []; wire = []; socket = s })
  round_recv r (pos zero) s =
      round_listened r.flush (record { ok = true; messages = []; wire = []; socket = s })
  round_recv r (pos (suc n)) s = do
    l ← client_listen msg_parse stale r.kernel r.fuel s
    round_listened r.flush l

  -- one round of the loop
  unfoldable pub client_round : ClientRound → Socket → Option RoundResult
  unfolding poll_recv round_recv
  client_round r s =
      let t = r.others s in
      if t.use_epoll
      then round_recv r (poll_recv t) t
      else some (record { goes_on = true; messages = []; wire = []; socket = t })

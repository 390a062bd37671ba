-- ===== src/SubNet.antt =====
-- include/zSubNetService.cpp and class zSubNetService (include/engine.h): a server that first asks
-- the management server who it is, through a SuperClient.
use ugly_ff.Base.{
  is_minus_one, ℕ, zero, suc, Bool, true, false, not, ◌&&◌, List, [], ◌∷◌, ◌++◌, Option, none, some,
  if◌then◌else◌, ◌==◌, get_or, ℤ, pos, negsuc, minus_one,
}
use ugly_ff.Text.Case.{Text}
use ugly_ff.Time.{RTime}
use ugly_ff.Packet.{max_datasize, ◌>>=◌}
use ugly_ff.Socket.{Socket, Errno, eagain, ewouldblock, eintr, other, poll_recv, disconnect}
use ugly_ff.Socket.Send.{Sending}
use ugly_ff.Socket.Receive.{Command, recv_to_cmd, Received, recv_data}
use ugly_ff.Task.{is_positive}
use ugly_ff.Epoll.{control}
use ugly_ff.Commands.{
  startup_request, startup_ok, cmd_startup, para_startup_response, zero_bytes, max_ip_length,
}
use ugly_ff.Client.{
  Client, ConnectCalls, connect_to, ClientSent, client_send_cmd, new_client, close,
}
use ugly_ff.Service.{NetService, NetCalls, net_init, net_final, new_net_service}
use ugly_ff.Thread.{Thread, new_thread, start, final, leave_run}
pub mod Waits
pub mod Outcomes

-- zSubNetService with its SuperClient, whose thread is `client_thread`
pub record SubNet : Type 0 where
  pub net : NetService
  pub server_id : ℕ
  pub server_type : ℕ
  pub ip : List ℕ
  pub port : ℕ
  pub client : Client
  pub client_thread : Thread
  pub verified : Bool

-- The constructor; SuperClient's does not set `verified`, which holds what `garbage` says.
unfoldable pub new_subnet : NetService → Client → ℕ → Bool → SubNet
unfolding zero_bytes new_thread
new_subnet net client server_type garbage = record {
  net = net;
  server_id = 0;
  server_type = server_type;
  ip = zero_bytes max_ip_length;
  port = 0;
  client = client;
  client_thread = new_thread true;
  verified = garbage;
}

-- SuperClient::msgParse with msgParse_Startup: whether the message was taken, and `verified`.
-- setServerInfo is empty, and msgParse_SuperService takes everything.
unfoldable pub super_msg_parse : ℕ → List ℕ → Bool → Bool × Bool
super_msg_parse stale msg verified =
    if get_or msg 0 stale == cmd_startup
    then (if get_or msg 1 stale == para_startup_response then (true, true) else (false, verified))
    else (true, verified)

-- one try of init: what connect()'s calls return, and what send() does with the request
pub record Attempt : Type 0 where
  pub calls : ConnectCalls
  pub sending : Sending

-- "127.0.0.1" and 8090
abbrev pub super_ip : Text
super_ip = b'1' ∷ b'2' ∷ b'7' ∷ b'.' ∷ b'0' ∷ b'.' ∷ b'0' ∷ b'.' ∷ b'1' ∷ []

abbrev pub super_port : ℕ
super_port = 8090

-- The loops of init until the request is sent: the connected client. `none` where the attempts end,
-- or is a fault.
unfoldable pub request_loop : List ℕ → List Attempt → Client → Option Client
unfolding connect_to client_send_cmd
request_loop request [] c = none
request_loop request (a ∷ rest) c = do
  (connected, c') ← connect_to a.calls super_ip super_port c
  elim connected [
    | false ↦ request_loop request rest c'
    | true ↦ (do
      sent ← client_send_cmd (some request) a.sending c'
      elim sent.ok [ true ↦ some sent.client | false ↦ request_loop request rest sent.client ])
  ]

-- a round of the loop that waits for the answer: what recv() hands over, and errno after it
pub record InitRound : Type 0 where
  pub hands : Option ℕ
  pub errno : Errno

-- the loop's state: the socket, the bytes that the kernel has for it, and `verified`
pub record Waiting : Type 0 where
  pub socket : Socket
  pub wire : List ℕ
  pub verified : Bool

-- what a round comes to: `return` with a value, or the next round
pub data Turn : Type 0 where
  returns : ℤ → Waiting → Turn
  continues : Waiting → Turn

unfoldable pub is_retry : Errno → Bool
is_retry eagain = true
is_retry ewouldblock = true
is_retry eintr = true
is_retry other = false

-- `return false` and `return -1`, as the value before its conversion to bool
abbrev pub return_false : ℤ
return_false = pos 0

-- a message for msgParse
unfoldable pub parsed : Bool × Bool → Waiting → Turn
unfolding disconnect
parsed (true, verified) w = continues (record w { verified = verified })
parsed (false, verified) w =
    returns return_false (record w { verified = verified; socket = disconnect w.socket })

-- what follows recvToCmd
unfoldable pub took : ℕ → Command → Waiting → Turn
unfolding parsed super_msg_parse is_minus_one is_positive
took stale c w =
    let w' : Waiting = record w { socket = c.socket } in
    if is_minus_one c.ret
    then returns minus_one w'
    else if is_positive c.ret
    then parsed (super_msg_parse stale c.cmd w.verified) w'
    else continues w'

-- what follows a RecvData that received something, by what WaitRecv(false) gives
unfoldable pub received : ℕ → ℤ → Waiting → Option Turn
unfolding took is_minus_one is_positive
received stale polled w =
    if is_minus_one polled
    then some (returns minus_one w)
    else if is_positive polled
    then (do c ← recv_to_cmd max_datasize w.socket; some (took stale c w))
    else some (continues w)

-- what follows RecvData; the other negative values do not occur
unfoldable pub after_recv : ℕ → InitRound → Received → Waiting → Option Turn
unfolding received poll_recv is_minus_one is_retry
after_recv stale r got w =
    let w' : Waiting = record w { socket = got.socket; wire = got.wire } in
    if is_minus_one got.ret
    then (if is_retry r.errno then some (continues w') else some (returns minus_one w'))
    else if not (is_positive got.ret)
    then some (returns minus_one w')
    else received stale (poll_recv w'.socket) w'

-- one round
unfoldable pub wait_turn : ℕ → InitRound → Waiting → Option Turn
unfolding after_recv
wait_turn stale r w = do got ← recv_data r.hands w.wire w.socket; after_recv stale r got w

-- while (!superClient->verified); `none` where the rounds end, or is a fault
unfoldable pub wait_loop : ℕ → List InitRound → Turn → Option Turn
unfolding wait_turn
wait_loop stale rounds (returns z w) = some (returns z w)
wait_loop stale [] (continues w) = if w.verified then some (continues w) else none
wait_loop stale (r ∷ rs) (continues w) =
    let next = (do t ← wait_turn stale r w; wait_loop stale rs t) in
    if w.verified then some (continues w) else next

-- an integer as a bool
unfoldable pub to_bool : ℤ → Bool
to_bool (pos n) = not (n == 0)
to_bool (negsuc n) = true

-- what the calls behind the loop return
pub record StartCalls : Type 0 where
  pub net_calls : NetCalls
  pub epoll_ctl : ℤ
  pub client_thread_created : Bool

unfoldable pub with_waiting : Waiting → SubNet → SubNet
with_waiting w n = record n {
  client = record n.client { psocket = some w.socket };
  verified = w.verified;
}

-- init behind the network's start
unfoldable pub join_epoll : StartCalls → Bool × NetService → SubNet → Bool × SubNet
unfolding control start is_minus_one
join_epoll calls (ok, net) n =
    let n' : SubNet = record n { net = net } in
    if not ok
    then (false, n')
    else if is_minus_one (control calls.epoll_ctl net.epoll)
    then (false, n')
    else (true, record n' { client_thread = (start calls.client_thread_created n.client_thread).1 })

-- init behind the loop
unfoldable pub conclude : StartCalls → SubNet → Turn → Bool × SubNet
unfolding to_bool with_waiting join_epoll net_init
conclude calls n (returns z w) = (to_bool z, with_waiting w n)
conclude calls n (continues w) =
    join_epoll calls (net_init calls.net_calls n.port n.net) (with_waiting w n)

unfoldable pub wait_from : List ℕ → SubNet → Option Socket → Option Waiting
wait_from wire n none = none
wait_from wire n (some s) = some (record { socket = s; wire = wire; verified = n.verified })

-- zSubNetService::init; `wire` has the bytes that the kernel will have for the connection.
unfoldable pub sub_init :
    ℕ → List Attempt → List ℕ → List InitRound → StartCalls → SubNet → Option (Bool × SubNet)
unfolding request_loop startup_request wait_from wait_loop conclude
sub_init stale attempts wire rounds calls n = do
  c ← request_loop (startup_request n.server_type n.ip) attempts n.client
  w ← wait_from wire n c.psocket
  t ← wait_loop stale rounds (continues w)
  some (conclude calls (record n { client = c }) t)

-- zSubNetService::validate
unfoldable pub sub_validate : Sending → SubNet → Option (Bool × SubNet)
unfolding client_send_cmd startup_ok
sub_validate sending n = do
  sent ← client_send_cmd (some (startup_ok n.server_id)) sending n.client
  some (sent.ok, record n { client = sent.client })

-- zSubNetService::final; join comes back once the client's thread has ended.
unfoldable pub sub_final : SubNet → SubNet
unfolding net_final final leave_run close
sub_final n = record n {
  net = net_final n.net;
  client_thread = (leave_run (final n.client_thread)).1;
  client = close n.client;
}

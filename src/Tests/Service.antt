-- ===== src/Tests/Service.antt =====
-- The theorems of the services at concrete system calls.
use mathlib.Core.Option
use ugly_ff.Base.{
  ℕ, ◌+◌, ◌<◌, ◌≡◌, refl, Bool, true, false, List, [], ◌∷◌, ◌++◌, Option, none, some, ℤ, pos,
  minus_one, ltb, arith,
}
use ugly_ff.Socket.{is_invalid, other}
use ugly_ff.Socket.Send.{room, send_cmd}
use ugly_ff.Socket.Receive.{recv_data}
use ugly_ff.Packet.{packet_append, pack_head}
use ugly_ff.Buffer.{put_stack, reserve_stack, new_buffer, rd_size, wr_flip, reserve_dynamic}
use ugly_ff.Listener.{BindCalls, TcpServer, zero_addr, new_tcp_server, destroy_server, bind}
use ugly_ff.Listener.Descriptors.{run_binds, opened, stray, run_binds-closed}
use ugly_ff.Service.{Virtual, main, NetService, new_net_service}
use ugly_ff.Service.Start.{net_virtual, EpollThread, epoll_gives_up, bind_fails-EpollThread}
use ugly_ff.Service.Main.{Life, Rounds, main_Life}
use ugly_ff.Client.{new_client, ConnectCalls}
use ugly_ff.SubNet.{SubNet, new_subnet, sub_init, Attempt, InitRound, StartCalls}
use ugly_ff.TaskPool.{Conn, Pool, new_pool, init}
use ugly_ff.TaskPool.Census.{census, count}
use ugly_ff.Super.{take_connections}
use ugly_ff.Super.Arrivals.{conns, take_connections-census}
use ugly_ff.Tests.Pool.{obliging, caller, newcomer}

-- a listen() that fails, and a Bind that succeeds
abbrev refused : BindCalls
refused = record {
  socket = pos 7;
  setsockopt = λ fd option. pos 0;
  bind = λ fd addr. pos 0;
  listen = λ fd backlog. minus_one;
}

abbrev granted : BindCalls
granted = record {
  socket = pos 8;
  setsockopt = λ fd option. pos 0;
  bind = λ fd addr. pos 0;
  listen = λ fd backlog. pos 0;
}

abbrev binds : List (BindCalls × ℕ)
binds = (refused, 8090) ∷ (granted, 8090) ∷ (granted, 8091) ∷ []

run_binds-closed_example :
    (destroy_server (run_binds binds (new_tcp_server zero_addr []))).closed
    ≡ opened binds (new_tcp_server zero_addr [])
      ++ stray (run_binds binds (new_tcp_server zero_addr [])).sock
unfolding is_invalid
run_binds-closed_example = run_binds-closed zero_addr [] binds (refl, (refl, (refl, tt)))

both_closed :
    (destroy_server (run_binds binds (new_tcp_server zero_addr []))).closed ≡ pos 7 ∷ pos 8 ∷ []
unfolding destroy_server run_binds new_tcp_server bind
both_closed = refl

-- a service that counts its callbacks, and is told to end once there have been two
abbrev counting : Virtual ℕ
counting = record {
  init = λ s. (true, s);
  validate = λ s. (true, s);
  callback = λ s. (true, s + 1);
  final = λ s. s + 100;
  terminated = λ s. ltb 1 s;
  others = λ s. s;
}

abbrev two_callbacks : Life counting 0 2 102
two_callbacks =
    Life.serves refl refl
      (Rounds.again 0 refl refl (Rounds.again 1 refl refl (Rounds.terminates 2 refl)))

main_Life_example :
    (Life counting 0 2 102 → 2 < 5 → main counting 5 0 ≡ some 102)
    × (main counting 5 0 ≡ some 102 → (m : ℕ) × Life counting 0 m 102)
main_Life_example = main_Life counting 0 102 2 5

abbrev net : NetService
net = new_net_service 0 30 20 []

abbrev connecting : ConnectCalls
connecting = record {
  socket = pos 9;
  setsockopt = λ fd option. pos 0;
  connect = λ fd addr. pos 0;
  inet_addr = λ ip. 16777343;
  garbage = false;
}

abbrev attempts : List Attempt
attempts =
    record { calls = record connecting { connect = λ fd addr. minus_one }; sending = room 100 }
    ∷ record { calls = connecting; sending = room 100 }
    ∷ []

-- the peer closes the connection at once
abbrev closes : List InitRound
closes = record { hands = some 0; errno = other } ∷ []

abbrev start_calls : StartCalls
start_calls = record {
  net_calls = record {
    epoll_create = pos 10;
    epoll_thread_created = true;
    epoll_waited = pos 0;
    bind_calls = granted;
    garbage = zero_addr;
    accept_thread_created = true;
  };
  epoll_ctl = pos 0;
  client_thread_created = true;
}

bind_fails-EpollThread_example :
    (r : NetService) × (main
        (net_virtual (record start_calls.net_calls { bind_calls = refused }) 8090 (λ n. 0) (λ n. n))
        5
        net
      ≡ some r)
    × EpollThread (epoll_gives_up (record start_calls.net_calls { bind_calls = refused }) net) r
    × (r.tcp_server ≡ none)
unfolding bind new_tcp_server
bind_fails-EpollThread_example =
    bind_fails-EpollThread (record start_calls.net_calls { bind_calls = refused }) 8090 (λ n. 0)
      (λ n. n) net 5 refl refl (omega arith)

abbrev subnet : SubNet
subnet = new_subnet net (new_client [] 8090 false 50000) 21 false

abbrev seen : Bool × SubNet → Bool × Option TcpServer
seen (says, n) = (says, n.net.tcp_server)

-- init says true, though nothing was started.
closed_is_true :
    Option.map seen (sub_init 0 attempts [] closes start_calls subnet) ≡ some (true, none)
unfolding sub_init new_subnet new_client new_net_service send_cmd packet_append pack_head put_stack
    reserve_stack new_buffer rd_size recv_data wr_flip reserve_dynamic
closed_is_true = refl

abbrev arrivals : List (ℤ × Conn)
arrivals = (pos 0, caller) ∷ (minus_one, newcomer) ∷ []

take_connections-census_example :
    (q : Pool) × (take_connections obliging.hooks net arrivals (init (new_pool 600)) ≡ some q)
    × ((x : ℕ) → census x q ≡ count x (conns arrivals))
take_connections-census_example = take_connections-census obliging net 600 arrivals

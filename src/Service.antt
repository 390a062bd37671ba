-- ===== src/Service.antt =====
-- include/zService.cpp and class zService; include/zNetService.cpp and class zNetService
-- (include/engine.h): the life of a service, and the start of its network.
use ugly_ff.Base.{
  ℕ, zero, suc, ◌*◌, Bool, true, false, not, ◌&&◌, List, [], ◌∷◌, Option, none, some, if◌then◌else◌,
  ℤ, pos, negsuc,
}
use mathlib.Core.Option
use ugly_ff.Text.Case.{Text}
use ugly_ff.Text.Properties.{Entries}
use ugly_ff.Time.{RTime, Timer, new_timer, fire}
use ugly_ff.Epoll.{Epoll, new_epoll, create, control, epoll_wait}
use ugly_ff.Listener.{TcpServer, SockAddr, BindCalls, new_tcp_server, bind, destroy_server}
use ugly_ff.Thread.{Thread, new_thread, start, enter_run, leave_run}
pub mod Main
pub mod Start

pub record Service : Type 0 where
  pub name : Text
  pub terminate : Bool
  pub one_sec : Timer
  pub env : Entries

-- The constructor, at the clock `now`
unfoldable pub new_service : RTime → Text → Service
unfolding new_timer
new_service now name = record {
  name = name;
  terminate = false;
  one_sec = new_timer now 1 0;
  env = [];
}

unfoldable pub service_is_terminate : Service → Bool
service_is_terminate s = s.terminate

unfoldable pub set_terminate : Service → Service
set_terminate s = record s { terminate = true }

-- The virtual functions of a service whose state is `S`. `others` is what the other threads do to it
-- before a round's test.
pub record Virtual (S : Type 0) : Type 0 where
  pub init : S → Bool × S
  pub validate : S → Bool × S
  pub callback : S → Bool × S
  pub final : S → S
  pub terminated : S → Bool
  pub others : S → S

module _ {S : Type 0} (v : Virtual S) where
  -- the loop of zService::main; `none` is fuel that ran out
  unfoldable pub main_loop : ℕ → S → Option S
  main_loop zero s = none
  main_loop (suc fuel) s =
      let t = v.others s in
      let rest = main_loop fuel (v.callback t).1 in
      if v.terminated t then some t else if (v.callback t).0 then rest else some (v.callback t).1

  abbrev pub then_loop : ℕ → Bool × S → Option S
  then_loop fuel (true, s) = main_loop fuel s
  then_loop fuel (false, s) = some s

  abbrev pub then_validate : ℕ → Bool × S → Option S
  then_validate fuel (true, s) = then_loop fuel (v.validate s)
  then_validate fuel (false, s) = some s

  -- zService::main
  unfoldable pub main : ℕ → S → Option S
  unfolding main_loop
  main fuel s = Option.map v.final (then_validate fuel (v.init s))

-- zNetService: what it has beside the service. `pEpollThread` and `pAcceptThread` are NULL at first
-- only if the memory happens to hold that; init is their first use.
pub record NetService : Type 0 where
  pub service : Service
  pub server_name : Text
  pub epoll : Epoll
  pub epoll_thread : Option Thread
  pub tcp_server : Option TcpServer
  pub accept_thread : Option Thread
  pub gone : List TcpServer

-- The constructor
unfoldable pub new_net_service : RTime → ℕ → ℕ → Text → NetService
unfolding new_service new_epoll
new_net_service now max maxevents name = record {
  service = new_service now name;
  server_name = name;
  epoll = new_epoll max maxevents;
  epoll_thread = none;
  tcp_server = none;
  accept_thread = none;
  gone = [];
}

-- what the system calls of zNetService::init return, and the first epoll_wait of the epoll thread; `garbage` was in the new zTCPServer's place.
pub record NetCalls : Type 0 where
  pub epoll_create : ℤ
  pub epoll_thread_created : Bool
  pub epoll_waited : ℤ
  pub bind_calls : BindCalls
  pub garbage : SockAddr
  pub accept_thread_created : Bool

-- init from the accept thread on
unfoldable pub start_accept : NetCalls → NetService → Bool × NetService
unfolding start new_thread
start_accept calls n =
    let (ok, t) = start calls.accept_thread_created (new_thread true) in
    (ok, record n { accept_thread = some t })

-- init from the listening socket on
unfoldable pub listen_at : NetCalls → ℕ → NetService → Bool × NetService
unfolding bind new_tcp_server start_accept
listen_at calls port n =
    let bound = bind calls.bind_calls port (new_tcp_server calls.garbage n.server_name) in
    let n' : NetService = record n { tcp_server = some bound.1 } in
    if bound.0 then start_accept calls n' else (false, n')

-- -1 and -2, the negative values of zEpoll::wait
unfoldable pub wait_fails : ℤ → Bool
wait_fails (pos n) = false
wait_fails (negsuc n) = true

-- The epoll thread comes to run(), and its first wait returns: where this fails (also since there is
-- no epoll descriptor), it ends the service and itself.
unfoldable pub epoll_thread_runs : ℤ → Thread → NetService → NetService
unfolding wait_fails epoll_wait enter_run leave_run set_terminate
epoll_thread_runs waited t n =
    if wait_fails (epoll_wait waited n.epoll)
    then record n {
      epoll_thread = some (leave_run (enter_run t)).1;
      service = set_terminate n.service;
    }
    else record n { epoll_thread = some (enter_run t) }

-- zNetService::init(port), where zService::init succeeds and memory does not run out
unfoldable pub net_init : NetCalls → ℕ → NetService → Bool × NetService
unfolding create start new_thread listen_at epoll_thread_runs
net_init calls port n =
    let (ok, t) = start calls.epoll_thread_created (new_thread true) in
    let n' : NetService = record n { epoll = (create calls.epoll_create n.epoll).1 } in
    if ok
    then listen_at calls port (epoll_thread_runs calls.epoll_waited t n')
    else (false, record n' { epoll_thread = some t })

-- zNetService::serviceCallback at the clock `now`, without its sleep; the branch of its timer is
-- commented out.
unfoldable pub service_callback : RTime → NetService → Bool × NetService
unfolding fire
service_callback now n =
    (true, record n { service = record n.service { one_sec = (fire now n.service.one_sec).1 } })

-- SAFE_DELETE of the listening socket; `gone` has those that were deleted.
unfoldable pub delete_server : Option TcpServer → NetService → NetService
unfolding destroy_server
delete_server none n = n
delete_server (some s) n = record n { tcp_server = none; gone = destroy_server s ∷ n.gone }

-- zNetService::final
unfoldable pub net_final : NetService → NetService
unfolding delete_server
net_final n = delete_server n.tcp_server n

unfoldable pub get_server_name : NetService → Text
get_server_name n = n.server_name

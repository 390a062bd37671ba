-- ===== src/Super.antt =====
-- superserver/superserver.cpp and class SuperService (superserver/superserver.h): the management
-- server's service, which takes connections into the pool.
use ugly_ff.Base.{ℕ, Bool, true, false, List, [], ◌∷◌, Option, none, some, if◌then◌else◌, ℤ, pos}
use ugly_ff.Text.Case.{Text}
use ugly_ff.Packet.{◌>>=◌}
use ugly_ff.Task.{Hooks}
use ugly_ff.Epoll.{control}
use ugly_ff.Commands.{GameZone, zone_assign, zero_bytes, max_ip_length}
use ugly_ff.TaskPool.{Conn, Pool, new_pool, init, add_verify, get_size}
use ugly_ff.TaskPool.Rounds.{Virtuals}
use ugly_ff.TaskPool.Final.{pool_final}
use ugly_ff.Service.{NetService, NetCalls, net_init}
pub mod Arrivals

pub record SuperService : Type 0 where
  pub net : NetService
  pub game_zone : GameZone
  pub zone_name : Text
  pub server_id : ℕ
  pub server_type : ℕ
  pub ip : List ℕ
  pub port : ℕ
  pub task_pool : Option Pool

-- The constructor; SUPERSERVER is the type of the management server.
unfoldable pub new_super : NetService → GameZone → ℕ → SuperService
unfolding zero_bytes
new_super net zone superserver = record {
  net = net;
  game_zone = zone;
  zone_name = [];
  server_id = 1;
  server_type = superserver;
  ip = zero_bytes max_ip_length;
  port = 0;
  task_pool = none;
}

-- SuperService::init, where the pool's threads can all be made
unfoldable pub super_init : NetCalls → SuperService → Bool × SuperService
unfolding new_pool init net_init
super_init calls s =
    let (ok, net) = net_init calls s.port s.net in
    (ok, record s { task_pool = some (init (new_pool 2048)); net = net })

-- SuperService::newTCPTask over the new task: a task that addVerify refuses is deleted and its
-- pointer is NULL, and its socket is asked for all the same, which is a fault (`none`). Whether
-- the task is registered with epoll is the first part of the result.
unfoldable pub register : ℤ → NetService → Bool × Pool → Option (ℤ × Pool)
unfolding control
register epoll_ctl net (true, p) = some (control epoll_ctl net.epoll, p)
register epoll_ctl net (false, p) = none

unfoldable pub new_tcp_task : Hooks → ℤ → NetService → Conn → Pool → Option (ℤ × Pool)
unfolding add_verify register
new_tcp_task hooks epoll_ctl net c p = register epoll_ctl net (add_verify hooks c p)

-- the connections that the accept thread takes, one after the other
unfoldable pub take_connections : Hooks → NetService → List (ℤ × Conn) → Pool → Option Pool
unfolding new_tcp_task
take_connections hooks net [] p = some p
take_connections hooks net ((epoll_ctl, c) ∷ cs) p = do
  taken ← new_tcp_task hooks epoll_ctl net c p
  take_connections hooks net cs taken.1

-- SuperService::final does nothing.
unfoldable pub super_final : SuperService → SuperService
super_final s = s

-- The destructor; `between` is what the pool's threads do meanwhile. The pool's destructor calls
-- final once more.
unfoldable pub end_pool : Virtuals → (Pool → Pool) → Option Pool → Option Pool
unfolding pool_final
end_pool v between none = none
end_pool v between (some p) = some (pool_final v between (pool_final v between p))

unfoldable pub size_of : Option Pool → ℤ
unfolding get_size
size_of none = pos 0
size_of (some p) = get_size p

-- getPoolSize
unfoldable pub get_pool_size : SuperService → ℤ
unfolding size_of
get_pool_size s = size_of s.task_pool

unfoldable pub super_set_port : ℕ → SuperService → SuperService
super_set_port port s = record s { port = port }

unfoldable pub set_zone_id : GameZone → SuperService → SuperService
unfolding zone_assign
set_zone_id zone s = record s { game_zone = zone_assign s.game_zone zone }

unfoldable pub set_zone_name : Text → SuperService → SuperService
set_zone_name name s = record s { zone_name = name }

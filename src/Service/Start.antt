-- ===== src/Service/Start.antt =====
-- include/zNetService.cpp: what the start of the network leaves, when it succeeds and when it fails.
use ugly_ff.Base.{
  ℕ, ◌≡◌, refl, Bool, true, false, Option, none, some, ◌<◌, ◌⊎◌, inl, inr, Bool-cases,
}
use ugly_ff.Time.{RTime}
use ugly_ff.Thread.{Thread, start, new_thread, enter_run, leave_run}
use ugly_ff.Epoll.{create, epoll_wait}
use ugly_ff.Listener.{TcpServer, new_tcp_server, bind}
use ugly_ff.Service.{
  NetService, NetCalls, Virtual, net_init, net_final, delete_server, listen_at, service_callback,
  main, wait_fails, epoll_thread_runs, set_terminate,
}
use ugly_ff.Service.Main.{Life, main_Life}

-- The thread runs and nobody has told it to end.
pub record IsRunning (t : Option Thread) : Type 0 where
  pub thread : Thread
  pub there : t ≡ some thread
  pub made : thread.has_handle ≡ true
  pub runs : thread.alive ≡ true
  pub not_told : thread.complete ≡ false

-- a zNetService as a service: the calls that its init makes, the clock that its callback reads, and
-- what the other threads do
unfoldable pub net_virtual :
    NetCalls → ℕ → (NetService → RTime) → (NetService → NetService) → Virtual NetService
net_virtual calls port clock others = record {
  init = net_init calls port;
  validate = λ n. (true, n);
  callback = λ n. service_callback (clock n) n;
  final = net_final;
  terminated = λ n. n.service.terminate;
  others = others;
}

-- the listening socket that init tries to open
abbrev pub attempt : NetCalls → ℕ → NetService → Bool × TcpServer
attempt calls port n = bind calls.bind_calls port (new_tcp_server calls.garbage n.server_name)

-- Whether the epoll thread's first wait fails.
abbrev pub epoll_gives_up : NetCalls → NetService → Bool
epoll_gives_up calls n =
    wait_fails (epoll_wait calls.epoll_waited (create calls.epoll_create n.epoll).1)

-- The thread has ended, and the service is to end.
pub record GaveUp (n : NetService) : Type 0 where
  pub thread : Thread
  pub there : n.epoll_thread ≡ some thread
  pub over : thread.alive ≡ false
  pub ends : n.service.terminate ≡ true

-- the epoll thread of a service where `gives_up` says whether its first wait failed
abbrev pub EpollThread : Bool → NetService → Type 0
EpollThread gives_up n =
    ((gives_up ≡ false) × IsRunning n.epoll_thread) ⊎ ((gives_up ≡ true) × GaveUp n)

module _ (calls : NetCalls) (port : ℕ) (n : NetService)
    (made : calls.epoll_thread_created ≡ true) where
  -- Where Bind fails, init fails, with the epoll thread as it left it.
  unbound :
      (attempt calls port n).0 ≡ false
      → ((net_init calls port n).0 ≡ false)
        × EpollThread (epoll_gives_up calls n) (net_init calls port n).1
  unfolding net_init listen_at start new_thread epoll_thread_runs enter_run leave_run set_terminate
  unbound refused = elim (Bool-cases (epoll_gives_up calls n)) [
    | inl y ↦
        rw (made, y, refused)
          (refl, inr (refl, record { thread = _; there = refl; over = refl; ends = refl }))
    | inr m ↦
        rw (made, m, refused)
          (
            refl,
            inl (
              refl,
              record { thread = _; there = refl; made = refl; runs = refl; not_told = refl },
            ),
          )
  ]

-- SAFE_DELETE of the listening socket leaves the epoll thread alone.
delete_server-EpollThread :
    (b : Bool) (n : NetService) (s : Option TcpServer)
    → n.tcp_server ≡ s
    → EpollThread b n
    → EpollThread b (delete_server s n) × ((delete_server s n).tcp_server ≡ none)
unfolding delete_server
delete_server-EpollThread b n none e t = (t, e)
delete_server-EpollThread b n (some s) e (inl t) = (inl t, refl)
delete_server-EpollThread b n (some s) e (inr (y, g)) =
    (inr (y, record { thread = g.thread; there = g.there; over = g.over; ends = g.ends }), refl)

-- Where the epoll thread could be made and Bind fails, zService::main of a zNetService returns (with
-- any fuel above 0) with its listening socket deleted; and with the epoll thread still running and
-- not told to end, unless its own wait failed (as it does without an epoll descriptor): then it has
-- ended by itself, and has told the service to end.
pub bind_fails-EpollThread :
    (calls : NetCalls) (port : ℕ) (clock : NetService → RTime) (others : NetService → NetService)
    (n : NetService) (fuel : ℕ)
    → calls.epoll_thread_created ≡ true
    → (attempt calls port n).0 ≡ false
    → 0 < fuel
    → (r : NetService) × (main (net_virtual calls port clock others) fuel n ≡ some r)
      × EpollThread (epoll_gives_up calls n) r
      × (r.tcp_server ≡ none)
unfolding net_virtual net_final
bind_fails-EpollThread calls port clock others n fuel made refused h =
    let (no_init, epoll) = unbound calls port n made refused in
    let m = (net_init calls port n).1 in
    let (still, gone) =
      delete_server-EpollThread (epoll_gives_up calls n) m m.tcp_server refl epoll in
    (
      net_final m,
      (main_Life (net_virtual calls port clock others) n (net_final m) 0 fuel).0
          (Life.init_fails no_init) h,
      still,
      gone,
    )

-- ===== src/TaskPool/Rounds.antt =====
-- include/zTCPTaskPool.cpp: run() of zVerifyThread, zSyncThread, zOkayThread and zRecycleThread, as
-- one round of the loop and the end of the thread.
use ugly_ff.Base.{
  ℕ, Bool, List, [], ◌∷◌, Option, none, some, if◌then◌else◌, get_elem?, is_minus_one, ℤ,
}
use ugly_ff.Time.{RTime}
use ugly_ff.Socket.{poll_recv, poll_send}
use ugly_ff.Task.{
  Task, Hooks, terminate_passive, terminate_active, is_positive, check_verify_timeout, check_signal,
  is_terminate, terminate_by, set_unique,
}
use ugly_ff.TaskPool.{
  Conn, holding, Worker, check_queue, counted, Pool, update, advance, reset, or_lost, add_recycle,
  add_sync, add_okay,
}

-- what verifyConn, waitSync and recycleConn answer: 1, 0, -1. (waitSync has no other result; it
-- would keep the loop on the same task for ever.)
pub data Answer : Type 0 where
  success wait failure : Answer

-- zTCPTask's virtual functions, and what the other threads have done to a task by the time that a
-- loop comes to it (the epoll thread fills its queue).
pub record Virtuals : Type 0 where
  pub hooks : Hooks
  pub see : Conn → Task
  pub verify_conn : Conn → Answer × Task
  pub wait_sync : Conn → Answer × Task
  pub recycle_conn : Conn → Answer × Task
  pub unique_add : Conn → Bool × Task
  pub unique_remove : Conn → Task
  pub listening_recv : Conn → Bool × Task
  pub listening_send : Conn → Bool × Task

unfoldable pub keep : Option Conn → List Conn → List Conn
keep none cs = cs
keep (some c) cs = c ∷ cs

-- for (it = tasks.begin(); it != tasks.end();) where a visit erases the task or goes on
unfoldable pub scan : (Conn → Pool → Option Conn × Pool) → List Conn → Pool → List Conn × Pool
unfolding keep
scan visit [] p = ([], p)
scan visit (c ∷ cs) p =
    let here = visit c p in let rest = scan visit cs here.1 in (keep here.0 rest.0, rest.1)

-- resetState and addRecycle
unfoldable pub drop_to_recycle : Conn → Pool → Option Conn × Pool
unfolding reset or_lost add_recycle
drop_to_recycle c p = (none, or_lost (reset c) (add_recycle (reset c) p))

module _ (v : Virtuals) where
  unfoldable pub seen : Conn → Conn
  unfolding holding
  seen c = holding (v.see c) c

  -- uniqueAdd, once verifyConn has said 1
  unfoldable pub add_unique : Conn → Pool → Option Conn × Pool
  unfolding holding set_unique or_lost add_sync drop_to_recycle
  add_unique c p =
      let (unique, t) = v.unique_add c in
      if unique
      then (let c' = holding (set_unique t) c in (none, or_lost c' (add_sync v.hooks c' p)))
      else drop_to_recycle (holding t c) p

  unfoldable pub verified : Answer → Conn → Pool → Option Conn × Pool
  unfolding add_unique drop_to_recycle
  verified success c p = add_unique c p
  verified wait c p = (some c, p)
  verified failure c p = drop_to_recycle c p

  -- the second loop of zVerifyThread::run
  unfoldable pub verify_visit : Conn → Pool → Option Conn × Pool
  unfolding holding seen verified is_minus_one is_positive poll_recv
  verify_visit c p =
      let ret = poll_recv (v.see c).socket in
      if is_minus_one ret
      then drop_to_recycle (seen c) p
      else if is_positive ret
      then (let (answer, t) = v.verify_conn (seen c) in verified answer (holding t c) p)
      else (some (seen c), p)

  -- the first loop of zVerifyThread::run
  unfoldable pub timeout_visit : RTime → Conn → Pool → Option Conn × Pool
  unfolding check_verify_timeout
  timeout_visit now c p =
      if check_verify_timeout now c.task then drop_to_recycle c p else (some c, p)

  unfoldable pub synced_visit : Answer → Bool → Conn → Pool → Option Conn × Pool
  unfolding add_okay drop_to_recycle
  synced_visit success created c p =
      let (taken, q) = add_okay v.hooks created c p in
      if taken then (none, q) else drop_to_recycle c q
  synced_visit wait created c p = (some c, p)
  synced_visit failure created c p = drop_to_recycle c p

  -- the loop of zSyncThread::run
  unfoldable pub sync_visit : Bool → Conn → Pool → Option Conn × Pool
  unfolding synced_visit holding
  sync_visit created c p =
      let (answer, t) = v.wait_sync c in synced_visit answer created (holding t c) p

  -- isTerminateWait, then Terminate with its default
  unfoldable pub heed : Task → Task
  unfolding terminate_by
  heed t = if t.terminate_wait then terminate_by terminate_passive t else t

  -- the first loop of zOkayThread::run
  unfoldable pub okay_visit : RTime → Conn → Pool → Option Conn × Pool
  unfolding check_signal heed is_terminate holding advance or_lost add_recycle
  okay_visit now c p =
      let c' = holding (heed (check_signal now c.task)) c in
      if is_terminate c'.task
      then (none, or_lost (advance v.hooks c') (add_recycle (advance v.hooks c') p))
      else (some c', p)

  -- what a read or write that went wrong comes to
  unfoldable pub or_terminate : Bool × Task → Task
  unfolding terminate_by
  or_terminate (ok, t) = if ok then t else terminate_by terminate_active t

  -- one poll of the second loop of zOkayThread::run: -1 gives the task up, and with something in the
  -- queue `act` is called
  unfoldable pub polled : ℤ → (Conn → Bool × Task) → Conn → Conn
  unfolding is_minus_one is_positive or_terminate holding terminate_by
  polled ret act c =
      if is_minus_one ret
      then holding (terminate_by terminate_active c.task) c
      else if is_positive ret
      then holding (or_terminate (act c)) c
      else c

  -- the second loop of zOkayThread::run, for one task
  unfoldable pub serve : Conn → Conn
  unfolding polled poll_recv poll_send seen
  serve c =
      let c₁ = seen c in
      let c₂ = polled (poll_recv c₁.task.socket) v.listening_recv c₁ in
      if c₁.task.socket.use_epoll then polled (poll_send c₂.task.socket) v.listening_send c₂ else c₁

  unfoldable pub serve_all : List Conn → List Conn
  unfolding serve
  serve_all [] = []
  serve_all (c ∷ cs) = serve c ∷ serve_all cs

  -- what the task's zOkayThread does when it takes it over
  unfoldable pub greet : Conn → Conn
  unfolding holding
  greet c = holding (v.listening_recv c).1 c

  -- uniqueRemove where the task is registered, and getNextState
  unfoldable pub release : Conn → Conn
  unfolding holding advance
  release c = advance v.hooks (if c.task.unique_verified then holding (v.unique_remove c) c else c)

  unfoldable pub recycled : Answer → Conn → Pool → Option Conn × Pool
  unfolding release
  recycled success c p = (none, record p { freed = release c ∷ p.freed })
  recycled wait c p = (some c, p)
  recycled failure c p = (some c, p)

  -- the loop of zRecycleThread::run
  unfoldable pub recycle_visit : Conn → Pool → Option Conn × Pool
  unfolding recycled holding
  recycle_visit c p = let (answer, t) = v.recycle_conn c in recycled answer (holding t c) p

  -- the loops at the end of the threads
  unfoldable pub reset_visit : Conn → Pool → Option Conn × Pool
  unfolding drop_to_recycle
  reset_visit c p = drop_to_recycle c p

  unfoldable pub advance_visit : Conn → Pool → Option Conn × Pool
  unfolding advance or_lost add_recycle
  advance_visit c p = (none, or_lost (advance v.hooks c) (add_recycle (advance v.hooks c) p))

  unfoldable pub free_visit : Conn → Pool → Option Conn × Pool
  unfolding recycled
  free_visit c p = recycled success c p

  -- a thread's own tasks, put back
  unfoldable pub verify_tasks : ℕ → Worker → List Conn → Pool → Pool
  unfolding update counted
  verify_tasks i w tasks p = record p {
    verify_threads = update i (counted tasks w) p.verify_threads;
  }

  unfoldable pub okay_tasks : ℕ → Worker → List Conn → Pool → Pool
  unfolding update counted
  okay_tasks i w tasks p = record p { okay_threads = update i (counted tasks w) p.okay_threads }

  -- one round of thread `i` of the verify threads; task_count is set where tasks changes, so that
  -- it is set once here
  unfoldable pub verify_round : RTime → ℕ → Pool → Pool
  unfolding check_queue verify_tasks scan timeout_visit verify_visit
  verify_round now i p = elim (get_elem? p.verify_threads i) [
    | none ↦ p
    | some w₀ ↦
        let w = check_queue (λ c. c) w₀ in
        let (young, p₁) = scan (timeout_visit now) w.tasks p in
        let (kept, p₂) = scan verify_visit young p₁ in verify_tasks i w kept p₂
  ]

  -- the end of thread `i` of the verify threads
  unfoldable pub verify_final : ℕ → Pool → Pool
  unfolding verify_tasks scan reset_visit
  verify_final i p = elim (get_elem? p.verify_threads i) [
    | none ↦ p
    | some w ↦ let (kept, q) = scan reset_visit w.tasks p in verify_tasks i w kept q
  ]

  unfoldable pub sync_round : Bool → Pool → Pool
  unfolding check_queue scan sync_visit
  sync_round created p = elim p.sync_thread [
    | none ↦ p
    | some w₀ ↦
        let w = check_queue (λ c. c) w₀ in
        let (kept, q) = scan (sync_visit created) w.tasks p in
        record q { sync_thread = some (record w { tasks = kept }) }
  ]

  unfoldable pub sync_final : Pool → Pool
  unfolding scan reset_visit
  sync_final p = elim p.sync_thread [
    | none ↦ p
    | some w ↦
        let (kept, q) = scan reset_visit w.tasks p in
        record q { sync_thread = some (record w { tasks = kept }) }
  ]

  unfoldable pub okay_round : RTime → ℕ → Pool → Pool
  unfolding check_queue okay_tasks scan okay_visit serve_all greet
  okay_round now i p = elim (get_elem? p.okay_threads i) [
    | none ↦ p
    | some w₀ ↦
        let w = check_queue greet w₀ in
        let (kept, q) = scan (okay_visit now) w.tasks p in okay_tasks i w (serve_all kept) q
  ]

  unfoldable pub okay_final : ℕ → Pool → Pool
  unfolding okay_tasks scan advance_visit
  okay_final i p = elim (get_elem? p.okay_threads i) [
    | none ↦ p
    | some w ↦ let (kept, q) = scan advance_visit w.tasks p in okay_tasks i w kept q
  ]

  unfoldable pub recycle_round : Pool → Pool
  unfolding check_queue scan recycle_visit
  recycle_round p = elim p.recycle_thread [
    | none ↦ p
    | some w₀ ↦
        let w = check_queue (λ c. c) w₀ in
        let (kept, q) = scan recycle_visit w.tasks p in
        record q { recycle_thread = some (record w { tasks = kept }) }
  ]

  unfoldable pub recycle_final : Pool → Pool
  unfolding scan free_visit
  recycle_final p = elim p.recycle_thread [
    | none ↦ p
    | some w ↦
        let (kept, q) = scan free_visit w.tasks p in
        record q { recycle_thread = some (record w { tasks = kept }) }
  ]

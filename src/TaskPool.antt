-- ===== src/TaskPool.antt =====
-- include/zTCPTaskPool.cpp, class zTCPTaskPool of include/engine.h: the threads of the pool, and how
-- they hand connections on to each other.
use ugly_ff.Base.{
  ℕ, zero, suc, ◌+◌, ◌-◌, ◌/◌, ◌%◌, ◌^◌, Bool, true, false, List, [], ◌∷◌, ◌++◌, Option, none, some,
  if◌then◌else◌, ltb, length, get_elem?, add64, ℤ, to_int,
}
use ugly_ff.Task.{Task, Hooks, get_next_state, reset_state}
pub mod Rounds
pub mod Census
pub mod Choice
pub mod Placement
pub mod Lives
pub mod Final

-- a zTCPTask*: the pointer and what it points at
pub record Conn : Type 0 where
  pub ptr : ℕ
  pub task : Task

unfoldable pub holding : Task → Conn → Conn
holding t c = record c { task = t }

-- A thread of the pool: whether it runs, the counter of its tasks (only zVerifyThread and
-- zOkayThread have one), the queue that the others fill (zTCPTaskQueue, _size a DWORD), and
-- its own tasks.
pub record Worker : Type 0 where
  pub alive : Bool
  pub task_count : ℕ
  pub size : ℕ
  pub queue : List Conn
  pub tasks : List Conn

unfoldable pub new_worker : Worker
new_worker = record { alive = false; task_count = 0; size = 0; queue = []; tasks = [] }

-- zTCPTaskQueue::add
unfoldable pub add : Conn → Worker → Worker
add c w = record w { queue = w.queue ++ (c ∷ []); size = add64 w.size 1 }

-- what check_queue's loop takes off the queue's back, in that order; `arrive` is what _add does to
-- a task besides storing it
unfoldable pub pour : (Conn → Conn) → List Conn → List Conn
pour arrive [] = []
pour arrive (c ∷ queue) = pour arrive queue ++ (arrive c ∷ [])

-- zTCPTaskQueue::check_queue
unfoldable pub check_queue : (Conn → Conn) → Worker → Worker
unfolding pour
check_queue arrive w = record w { tasks = w.tasks ++ pour arrive w.queue; queue = []; size = 0 }

-- task_count = tasks.size()
unfoldable pub counted : List Conn → Worker → Worker
counted tasks w = record w { tasks = tasks; task_count = length tasks }

-- zOkayThread::size
unfoldable pub worker_size : Worker → ℕ
worker_size w = add64 w.task_count w.size

-- The pool. `freed` has the tasks that were deleted, and `lost` those that no container holds and
-- nobody deleted.
pub record Pool : Type 0 where
  pub max_conns : ℕ
  pub max_thread_count : ℕ
  pub hash_code : ℕ
  pub verify_threads : List Worker
  pub sync_thread : Option Worker
  pub okay_threads : List Worker
  pub recycle_thread : Option Worker
  pub freed : List Conn
  pub lost : List Conn

abbrev pub max_verify_threads : ℕ
max_verify_threads = 4

abbrev pub conn_per_thread : ℕ
conn_per_thread = 512

-- zTCPTaskPool's constructor
unfoldable pub new_pool : ℕ → Pool
new_pool max_conns = record {
  max_conns = max_conns;
  max_thread_count = 1;
  hash_code = 0;
  verify_threads = [];
  sync_thread = none;
  okay_threads = [];
  recycle_thread = none;
  freed = [];
  lost = [];
}

-- `n` threads, made and started; each sets its own `alive` when it comes to run.
unfoldable pub workers : ℕ → List Worker
unfolding new_worker
workers zero = []
workers (suc n) = workers n ++ (new_worker ∷ [])

-- zTCPTaskPool::init, where every thread can be made and started
unfoldable pub init : Pool → Pool
unfolding workers new_worker
init p =
    let count = (p.max_conns + conn_per_thread - 1) / conn_per_thread in
    record p {
      max_thread_count = count;
      verify_threads = p.verify_threads ++ workers max_verify_threads;
      sync_thread = some new_worker;
      okay_threads = p.okay_threads ++ workers count;
      recycle_thread = some new_worker;
    }

-- the element at an index, replaced
unfoldable pub update {ℓ} : {A : Type ℓ} → ℕ → A → List A → List A
update i y [] = []
update zero y (x ∷ xs) = y ∷ xs
update (suc i) y (x ∷ xs) = x ∷ update i y xs

-- zThread::threadFunc before run() (`true`) and after it (`false`), for thread `i` of the okay threads.
-- Of the other threads nobody in the pool reads `alive`.
unfoldable pub okay_alive : Bool → ℕ → Pool → Pool
unfolding update
okay_alive runs i p = elim (get_elem? p.okay_threads i) [
  | none ↦ p
  | some w ↦ record p { okay_threads = update i (record w { alive = runs }) p.okay_threads }
]

unfoldable pub advance : Hooks → Conn → Conn
unfolding holding
advance h c = holding (get_next_state h c.task) c

unfoldable pub reset : Conn → Conn
unfolding holding
reset c = holding (reset_state c.task) c

-- The caller leaves a task alone that nobody took.
unfoldable pub or_lost : Conn → Bool × Pool → Pool
or_lost c (true, p) = p
or_lost c (false, p) = record p { lost = c ∷ p.lost }

-- zTCPTaskPool::addRecycle
unfoldable pub add_recycle : Conn → Pool → Bool × Pool
unfolding add
add_recycle c p = elim p.recycle_thread [
  | none ↦ (false, p)
  | some w ↦ (true, record p { recycle_thread = some (add c w) })
]

module _ (h : Hooks) where
  -- zTCPTaskPool::addVerify
  unfoldable pub add_verify : Conn → Pool → Bool × Pool
  unfolding add advance update
  add_verify c p =
      let i = p.hash_code % max_verify_threads in
      let q : Pool = record p { hash_code = add64 p.hash_code 1 } in
      elim (get_elem? p.verify_threads i) [
        | none ↦ (false, q)
        | some w ↦
            (true, record q { verify_threads = update i (add (advance h c) w) p.verify_threads })
      ]

  -- zTCPTaskPool::addSync
  unfoldable pub add_sync : Conn → Pool → Bool × Pool
  unfolding add advance
  add_sync c p = elim p.sync_thread [
    | none ↦ (false, p)
    | some w ↦ (true, record p { sync_thread = some (add (advance h c) w) })
  ]

-- what the loop of addOkay finds: a thread that is missing, or the least full running thread and a
-- thread that does not run
pub data Found : Type 0 where
  missing : Found
  found : (pmin nostart : Option ℕ) → Found

-- the least full thread so far, as its index
unfoldable pub least : List Worker → Option ℕ → ℕ → ℕ
unfolding worker_size
least ws none i = i
least ws (some m) i = elim (get_elem? ws m) [
  | none ↦ i
  | some a ↦ elim (get_elem? ws i) [
    | none ↦ m
    | some b ↦ if ltb (worker_size b) (worker_size a) then i else m
  ]
]

-- the loop of addOkay, with `left` more threads from index `i` on
unfoldable pub find_okay : List Worker → ℕ → ℕ → Option ℕ → Found
unfolding least
find_okay ws zero i pmin = found pmin none
find_okay ws (suc left) i pmin =
    let rest = find_okay ws left (suc i) (some (least ws pmin i)) in
    elim (get_elem? ws i) [
      | none ↦ missing
      | some w ↦ if w.alive then rest else found pmin (some i)
    ]

-- the task goes to the thread at an index
unfoldable pub give : Hooks → Conn → ℕ → Pool → Bool × Pool
unfolding add advance update
give h c i p = elim (get_elem? p.okay_threads i) [
  | none ↦ (false, p)
  | some w ↦ (true, record p { okay_threads = update i (add (advance h c) w) p.okay_threads })
]

-- whether the least full thread has room
unfoldable pub has_room : List Worker → Option ℕ → Bool
unfolding worker_size
has_room ws none = false
has_room ws (some m) = elim (get_elem? ws m) [
  | none ↦ false
  | some w ↦ ltb (worker_size w) conn_per_thread
]

-- a thread that does not run is started, if pthread_create succeeds
unfoldable pub start_and_give : Hooks → Bool → Conn → Option ℕ → Pool → Bool × Pool
unfolding give
start_and_give h created c none p = (false, p)
start_and_give h created c (some i) p = if created then give h c i p else (false, p)

abbrev pub index_or_zero : Option ℕ → ℕ
index_or_zero none = 0
index_or_zero (some i) = i

-- what addOkay does behind its loop
unfoldable pub settle : Hooks → Bool → Conn → Found → Pool → Bool × Pool
unfolding has_room give start_and_give
settle h created c missing p = (false, p)
settle h created c (found pmin nostart) p =
    if has_room p.okay_threads pmin
    then give h c (index_or_zero pmin) p
    else start_and_give h created c nostart p

-- zTCPTaskPool::addOkay; `created` is whether pthread_create would succeed.
unfoldable pub add_okay : Hooks → Bool → Conn → Pool → Bool × Pool
unfolding find_okay settle
add_okay h created c p = settle h created c (find_okay p.okay_threads p.max_thread_count 0 none) p

-- the callback of getSize over the okay threads
unfoldable pub sum_sizes : List Worker → ℕ
unfolding worker_size
sum_sizes [] = 0
sum_sizes (w ∷ ws) = worker_size w + sum_sizes ws

-- zTCPTaskPool::getSize; the sum is made in an `int`.
unfoldable pub get_size : Pool → ℤ
unfolding sum_sizes
get_size p = to_int (sum_sizes p.okay_threads)

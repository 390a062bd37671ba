-- ===== src/Tests/Pool.antt =====
-- The pool's theorems at a concrete history.
use mathlib.Core.Option
use ugly_ff.Base.{to_int, ℕ, Bool, ◌+◌, ◌≡◌, true, false, List, some, [], refl, ◌∷◌, get_elem?}
use ugly_ff.TaskPool.{
  Conn, Pool, new_pool, init, add_verify, Worker, add_okay, okay_alive, workers, new_worker, add,
  advance, update, check_queue, pour,
}
use ugly_ff.TaskPool.Rounds.{success, Virtuals, verify_round, sync_round, okay_round, recycle_round}
use ugly_ff.TaskPool.Census.{count, census}
use ugly_ff.TaskPool.Lives.{
  verify_goes, okay_starts, sync_goes, okay_goes, recycle_goes, History, start, arrives, goes_on,
  taken, History-census,
}
use ugly_ff.Time.{elapse}
use ugly_ff.Buffer.{rd_size, new_buffer}
use ugly_ff.Task.{notuse, get_next_state, reset_state}
use ugly_ff.TaskPool.Placement.{Sound}
use ugly_ff.TaskPool.Placement.Visits.{Steady}
use ugly_ff.TaskPool.Placement.Kept.{Tame, init-History-Sound}
use ugly_ff.TaskPool.Final.{pool_final}
use ugly_ff.TaskPool.Final.Drains.{queued}
use ugly_ff.TaskPool.Final.Losses.{queued_in, pool_final-lost}
use ugly_ff.TaskPool.Choice.{Chosen, add_okay-Chosen}
use ugly_ff.Tests.Delivery.{receiver}
use ugly_ff.Tests.Stream.{received}

-- a subclass that says yes to everything
abbrev pub obliging : Virtuals
obliging = record {
  hooks = record { add_to_container = λ t. t; remove_from_container = λ t. t };
  see = λ c. c.task;
  verify_conn = λ c. (success, c.task);
  wait_sync = λ c. (success, c.task);
  recycle_conn = λ c. (success, c.task);
  unique_add = λ c. (true, c.task);
  unique_remove = λ c. c.task;
  listening_recv = λ c. (true, c.task);
  listening_send = λ c. (true, c.task);
}

abbrev pub caller : Conn
caller = record { ptr = 77; task = receiver }

abbrev ptrs : List Conn → List ℕ
ptrs [] = []
ptrs (c ∷ cs) = c.ptr ∷ ptrs cs

abbrev pool₀ : Pool
pool₀ = init (new_pool 600)

abbrev pool₁ : Pool
pool₁ = (add_verify obliging.hooks caller pool₀).1

abbrev pool₂ : Pool
pool₂ = sync_round obliging true (verify_round obliging 5 0 pool₁)

abbrev pool₃ : Pool
pool₃ = recycle_round obliging (okay_round obliging 5 0 pool₂)

history : History pool₀ (taken (add_verify obliging.hooks caller pool₀).0 caller []) pool₃
history =
    goes_on obliging
      (goes_on obliging
        (goes_on obliging (goes_on obliging (arrives obliging caller start) (verify_goes 5 0))
          (sync_goes true))
        (okay_goes 5 0))
      recycle_goes

History-census_example :
    census 77 pool₃
    ≡ count 77 (taken (add_verify obliging.hooks caller pool₀).0 caller []) + census 77 pool₀
History-census_example = History-census 77 history

-- a task that has only just come
abbrev pub newcomer : Conn
newcomer = record { ptr = 78; task = record receiver { state = notuse } }

-- the same, where the peer has sent something
abbrev asked : Virtuals
asked = record obliging { see = λ c. record c.task { socket = received } }

abbrev stage₀ : Pool
stage₀ = init (new_pool 600)

abbrev stage₁ : Pool
stage₁ = okay_alive true 0 (add_verify asked.hooks newcomer stage₀).1

abbrev stage₂ : Pool
stage₂ = sync_round asked true (verify_round asked 5 0 stage₁)

abbrev stage₃ : Pool
stage₃ = okay_round asked 5 0 stage₂

-- a connection that goes all the way to a running okay thread
abbrev arrival :
    History stage₀ (taken (add_verify asked.hooks newcomer stage₀).0 newcomer []) stage₃
arrival =
    goes_on asked
      (goes_on asked
        (goes_on asked (goes_on asked (arrives asked newcomer start) (okay_starts 0))
          (verify_goes 5 0))
        (sync_goes true))
      (okay_goes 5 0)

-- The first okay thread runs, and it is the one that has the connection.
served_by_first :
    (Option.map {B = Bool × List ℕ} (λ w. (w.alive, ptrs w.tasks)) (get_elem? stage₃.okay_threads 0)
      ≡ some (true, 78 ∷ []))
    × (Option.map {B = Bool × List ℕ}
          (λ w. (w.alive, ptrs w.tasks))
          (get_elem? stage₃.okay_threads 1)
        ≡ some (false, []))
unfolding init new_pool workers new_worker okay_alive add_verify add advance update verify_round
    sync_round okay_round check_queue pour elapse get_next_state to_int rd_size new_buffer
served_by_first = (refl, refl)

asked-Steady : Steady asked
asked-Steady = record {
  see = λ c. refl;
  verify_conn = λ c. refl;
  wait_sync = λ c. refl;
  recycle_conn = λ c. refl;
  unique_add = λ c. refl;
  unique_remove = λ c. refl;
  listening_recv = λ c. refl;
  listening_send = λ c. refl;
}

init-History-Sound_example : Sound stage₃
unfolding Tame
init-History-Sound_example =
    init-History-Sound 600 arrival
      (asked-Steady, (asked-Steady, (asked-Steady, (asked-Steady, (refl, tt)))))

abbrev busy : Worker
busy = record { alive = true; task_count = 3; size = 1; queue = []; tasks = [] }

abbrev calm : Worker
calm = record { alive = true; task_count = 2; size = 0; queue = []; tasks = [] }

abbrev serving : Pool
serving = record pool₀ { okay_threads = busy ∷ calm ∷ []; max_thread_count = 2 }

add_okay-Chosen_example :
    Chosen obliging.hooks caller serving (add_okay obliging.hooks true caller serving)
add_okay-Chosen_example = add_okay-Chosen obliging.hooks true caller serving (refl, (refl, tt)) refl

-- A verify thread with one task taken over and one that waits, and an okay thread with a task
abbrev closing : Pool
closing = record pool₀ {
  verify_threads = record calm { queue = caller ∷ []; tasks = newcomer ∷ [] } ∷ calm ∷ [];
  okay_threads = record busy { tasks = record newcomer { ptr = 79 } ∷ [] } ∷ [];
  recycle_thread = some calm;
}

pool_final-lost_example :
    (count 77 (pool_final obliging (recycle_round obliging) closing).lost
      ≡ count 77 closing.lost
        + queued 77 closing.verify_threads
        + queued_in 77 closing.sync_thread
        + queued 77 closing.okay_threads)
    × (census 77 (pool_final obliging (recycle_round obliging) closing) ≡ census 77 closing)
pool_final-lost_example = pool_final-lost 77 obliging closing refl

-- The one that waits is lost, and the two others are freed.
waiting_is_lost :
    (ptrs (pool_final obliging (recycle_round obliging) closing).lost ≡ 77 ∷ [])
    × (ptrs (pool_final obliging (recycle_round obliging) closing).freed ≡ 79 ∷ 78 ∷ [])
unfolding pool_final init new_pool workers new_worker add advance check_queue pour update
    recycle_round get_next_state reset_state
waiting_is_lost = (refl, refl)

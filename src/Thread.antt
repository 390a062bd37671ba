-- ===== src/Thread.antt =====
-- zThread and zThreadGroup (include/engine.h, include/zThread.cpp). The locks make each call a step;
-- what pthread_create returns is an argument.
use ugly_ff.Base.{
  ℕ, zero, suc, Bool, true, false, List, [], ◌∷◌, ◌++◌, Option, none, some, if◌then◌else◌, ◌==◌,
  get_elem?, not, ◌||◌,
}
use ugly_ff.Packet.{◌>>=◌}
pub mod Group
pub mod Join

pub record Thread : Type 0 where
  pub alive : Bool
  pub complete : Bool
  pub has_handle : Bool
  pub joinable : Bool

unfoldable pub new_thread : Bool → Thread
new_thread joinable = record {
  alive = false;
  complete = false;
  has_handle = false;
  joinable = joinable;
}

-- zThread::start, where pthread_create succeeds or not; `alive` is set by the new thread itself.
unfoldable pub start : Bool → Thread → Bool × Thread
start created t =
    if t.alive
    then (true, t)
    else if created
    then (true, record t { has_handle = true })
    else (false, t)

-- zThread::threadFunc before and after run(); whether the thread deletes its object
unfoldable pub enter_run : Thread → Thread
enter_run t = record t { alive = true }

unfoldable pub leave_run : Thread → Bool × Thread
leave_run t =
    if t.joinable
    then (false, record t { alive = false; has_handle = false })
    else (true, record t { alive = false })

-- zThread::final and isFinal
unfoldable pub final : Thread → Thread
final t = record t { complete = true }

-- The group's array of pointers, and what they point at; `deleted` has the threads that joinAll has
-- deleted, the last one first.
pub record ThreadGroup : Type 0 where
  pub vts : List (Option ℕ)
  pub threads : ℕ → Thread
  pub deleted : List ℕ

unfoldable pub same_pointer : Option ℕ → Option ℕ → Bool
same_pointer none none = true
same_pointer none (some q) = false
same_pointer (some p) none = false
same_pointer (some p) (some q) = p == q

-- std::find
unfoldable pub has_thread : Option ℕ → List (Option ℕ) → Bool
unfolding same_pointer
has_thread p [] = false
has_thread p (q ∷ qs) = if same_pointer q p then true else has_thread p qs

-- zThreadGroup::add
unfoldable pub add_thread : Option ℕ → ThreadGroup → ThreadGroup
unfolding has_thread
add_thread p g = if has_thread p g.vts then g else record g { vts = g.vts ++ (p ∷ []) }

-- zThreadGroup::getByIndex; NULL out of range
unfoldable pub get_by_index : ℕ → ThreadGroup → Option ℕ
get_by_index i g = elim (get_elem? g.vts i) [ none ↦ none | some p ↦ p ]

-- Which threads leave run() between final() and join's look at their handle is an argument.
module _ (early : ℕ → Bool) where
  -- final, join and SAFE_DELETE of one thread. pthread_join comes back once the thread has left
  -- run(). `none` is a pthread_join of the handle 0, which a thread has that was never started or
  -- that has ended, and a second delete of a thread that is not joinable and deletes itself.
  unfoldable pub join_thread : Option ℕ → ThreadGroup → Option ThreadGroup
  unfolding final leave_run
  join_thread none g = some g
  join_thread (some p) g =
      let t = final (g.threads p) in
      if not t.has_handle || early p
      then none
      else if (leave_run t).0
      then none
      else some (record g {
        threads = λ q. if q == p then (leave_run t).1 else g.threads q;
        deleted = p ∷ g.deleted;
      })

  -- the loop of zThreadGroup::joinAll, over the array from its back
  unfoldable pub join_from_back : List (Option ℕ) → ThreadGroup → Option ThreadGroup
  unfolding join_thread
  join_from_back [] g = some g
  join_from_back (p ∷ ps) g = do g' ← join_from_back ps g; join_thread p g'

  -- zThreadGroup::joinAll
  unfoldable pub join_all : ThreadGroup → Option ThreadGroup
  unfolding join_from_back
  join_all g = join_from_back g.vts (record g { vts = [] })

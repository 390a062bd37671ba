-- ===== src/TaskPool/Final.antt =====
-- include/zTCPTaskPool.cpp: zTCPTaskPool::final, and the pool's state flags (include/engine.h).
use ugly_ff.Base.{
  ℕ, zero, suc, ◌≡◌, refl, ◌∙◌, List, [], ◌∷◌, ◌++◌, Option, none, some, length, arith,
}
use Prim.Native.Nat.{bit_and, bit_or, bit_xor}
use ugly_ff.TaskPool.{Conn, Worker, Pool}
use ugly_ff.TaskPool.Rounds.{Virtuals, verify_final, sync_final, okay_final, recycle_final}
use ugly_ff.TaskPool.Census.{count, total, one, census, count-append}
use ugly_ff.TaskPool.Census.Steps.{
  verify_final-census, okay_final-census, sync_final-census, recycle_final-census,
}
pub mod Drains
pub mod Losses

-- the ends of the threads 0 to n - 1, from the back, as joinAll makes them
unfoldable pub ends_from_back : (ℕ → Pool → Pool) → ℕ → Pool → Pool
ends_from_back end_of zero p = p
ends_from_back end_of (suc n) p = ends_from_back end_of n (end_of n p)

-- the connections that deleted threads still held
unfoldable pub left_in : List Worker → List Conn
left_in [] = []
left_in (w ∷ ws) = (w.queue ++ w.tasks) ++ left_in ws

unfoldable pub left_in_one : Option Worker → List Conn
left_in_one none = []
left_in_one (some w) = w.queue ++ w.tasks

-- verifyThreads.joinAll() and okayThreads.joinAll(): the threads are deleted.
unfoldable pub join_verify : Virtuals → Pool → Pool
unfolding ends_from_back verify_final left_in
join_verify v p =
    let q = ends_from_back (verify_final v) (length p.verify_threads) p in
    record q { verify_threads = []; lost = left_in q.verify_threads ++ q.lost }

unfoldable pub join_okay : Virtuals → Pool → Pool
unfolding ends_from_back okay_final left_in
join_okay v p =
    let q = ends_from_back (okay_final v) (length p.okay_threads) p in
    record q { okay_threads = []; lost = left_in q.okay_threads ++ q.lost }

-- final, join and SAFE_DELETE of the sync thread and of the recycle thread, if there are any
unfoldable pub join_sync : Virtuals → Pool → Pool
unfolding sync_final left_in_one
join_sync v p =
    let q = sync_final v p in
    record q { sync_thread = none; lost = left_in_one q.sync_thread ++ q.lost }

unfoldable pub join_recycle : Virtuals → Pool → Pool
unfolding recycle_final left_in_one
join_recycle v p =
    let q = recycle_final v p in
    record q { recycle_thread = none; lost = left_in_one q.recycle_thread ++ q.lost }

-- zTCPTaskPool::final; `between` is what the threads that still run do between its four joins.
unfoldable pub pool_final : Virtuals → (Pool → Pool) → Pool → Pool
unfolding join_verify join_sync join_okay join_recycle
pool_final v between p =
    join_recycle v
      (between (join_okay v (between (join_sync v (between (join_verify v (between p)))))))

-- setState, clearState and getState, over a state and flags that are not negative
unfoldable pub set_flags : ℕ → ℕ → ℕ
set_flags flags state = bit_or state flags

unfoldable pub clear_flags : ℕ → ℕ → ℕ
clear_flags flags state = bit_xor state (bit_and state flags)

module _ (x : ℕ) (v : Virtuals) where
  ends_from_back-census :
      (end_of : ℕ → Pool → Pool) (n : ℕ) (p : Pool)
      → ((i : ℕ) (q : Pool) → census x (end_of i q) ≡ census x q)
      → census x (ends_from_back end_of n p) ≡ census x p
  unfolding ends_from_back
  ends_from_back-census end_of zero p h = refl
  ends_from_back-census end_of (suc n) p h = ends_from_back-census end_of n (end_of n p) h ∙ h n p

  left_in-count : (ws : List Worker) → count x (left_in ws) ≡ total x ws
  unfolding left_in
  left_in-count [] = refl
  left_in-count (w ∷ ws) = omega (
    arith,
    count-append x (w.queue ++ w.tasks) (left_in ws),
    count-append x w.queue w.tasks,
    left_in-count ws,
  )

  left_in_one-count : (o : Option Worker) → count x (left_in_one o) ≡ one x o
  unfolding left_in_one
  left_in_one-count none = refl
  left_in_one-count (some w) = count-append x w.queue w.tasks

  join_verify-census : (p : Pool) → census x (join_verify v p) ≡ census x p
  unfolding join_verify
  join_verify-census p =
      let q = ends_from_back (verify_final v) (length p.verify_threads) p in
      omega (
        arith,
        ends_from_back-census (verify_final v) (length p.verify_threads) p
            (λ i r. verify_final-census x v i r),
        count-append x (left_in q.verify_threads) q.lost,
        left_in-count q.verify_threads,
      )

  join_okay-census : (p : Pool) → census x (join_okay v p) ≡ census x p
  unfolding join_okay
  join_okay-census p =
      let q = ends_from_back (okay_final v) (length p.okay_threads) p in
      omega (
        arith,
        ends_from_back-census (okay_final v) (length p.okay_threads) p
            (λ i r. okay_final-census x v i r),
        count-append x (left_in q.okay_threads) q.lost,
        left_in-count q.okay_threads,
      )

  join_sync-census : (p : Pool) → census x (join_sync v p) ≡ census x p
  unfolding join_sync
  join_sync-census p =
      let q = sync_final v p in
      omega (
        arith,
        sync_final-census x v p,
        count-append x (left_in_one q.sync_thread) q.lost,
        left_in_one-count q.sync_thread,
      )

  join_recycle-census : (p : Pool) → census x (join_recycle v p) ≡ census x p
  unfolding join_recycle
  join_recycle-census p =
      let q = recycle_final v p in
      omega (
        arith,
        recycle_final-census x v p,
        count-append x (left_in_one q.recycle_thread) q.lost,
        left_in_one-count q.recycle_thread,
      )

  -- Where the threads that still run keep the census between the joins, the end of the pool keeps it
  -- too: each connection that was somewhere in the pool, freed or lost is still counted as often.
  pub pool_final-census :
      (between : Pool → Pool) (p : Pool)
      → ((q : Pool) → census x (between q) ≡ census x q)
      → census x (pool_final v between p) ≡ census x p
  unfolding pool_final
  pool_final-census between p h =
      let p₁ = between p in
      let p₂ = join_verify v p₁ in
      let p₃ = join_sync v (between p₂) in
      let p₄ = join_okay v (between p₃) in
      join_recycle-census (between p₄)
      ∙ h p₄
      ∙ join_okay-census (between p₃)
      ∙ h p₃
      ∙ join_sync-census (between p₂)
      ∙ h p₂
      ∙ join_verify-census p₁
      ∙ h p

-- ===== src/Super/Arrivals.antt =====
-- superserver/superserver.cpp: the connections that the management server accepts are all in its
-- pool.
use ugly_ff.Base.{
  ℕ, zero, suc, ◌+◌, ◌-◌, ◌/◌, ◌++◌, ◌%◌, ◌≡◌, refl, ap, ◌∙◌, Bool, true, false, List, [], ◌∷◌,
  some, ℤ, if◌then◌else◌, length, arith,
}
use ugly_ff.Task.{Hooks}
use ugly_ff.TaskPool.{
  Conn, Pool, Worker, new_pool, new_worker, workers, init, add_verify, update, max_verify_threads,
}
use ugly_ff.TaskPool.Rounds.{Virtuals}
use ugly_ff.TaskPool.Choice.{get_elem?-inside}
use ugly_ff.TaskPool.Census.{here, count, census, total}
use ugly_ff.TaskPool.Census.Steps.{add_verify-census}
use ugly_ff.Service.{NetService}
use ugly_ff.Super.{take_connections, new_tcp_task, register}

length-update {ℓ} : {A : Type ℓ} (i : ℕ) (y : A) (xs : List A) → length (update i y xs) ≡ length xs
unfolding update
length-update i y [] = refl
length-update zero y (x ∷ xs) = refl
length-update (suc i) y (x ∷ xs) = ap suc (length-update i y xs)

-- All the verify threads that the pool counts on are there.
abbrev pub HasVerifiers : Pool → Type 0
HasVerifiers p = length p.verify_threads ≡ max_verify_threads

-- addVerify takes a connection, and the threads stay.
add_verify-taken :
    (h : Hooks) (c : Conn) (p : Pool)
    → HasVerifiers p
    → ((add_verify h c p).0 ≡ true) × HasVerifiers (add_verify h c p).1
unfolding add_verify
add_verify-taken h c p n =
    let (w, e) =
      get_elem?-inside p.verify_threads (p.hash_code % max_verify_threads) (omega (arith, n)) in
    rw (add_verify, e) (refl, length-update _ _ p.verify_threads ∙ n)

abbrev pub conns : List (ℤ × Conn) → List Conn
conns [] = []
conns ((epoll_ctl, c) ∷ cs) = c ∷ conns cs

module _ (v : Virtuals) (net : NetService) where
  new_tcp_task-taken :
      (epoll_ctl : ℤ) (c : Conn) (p : Pool)
      → HasVerifiers p
      → (z : ℤ) × (new_tcp_task v.hooks epoll_ctl net c p ≡ some (z, (add_verify v.hooks c p).1))
  unfolding new_tcp_task register
  new_tcp_task-taken epoll_ctl c p n =
      registered (add_verify v.hooks c p) (add_verify-taken v.hooks c p n).0
    where
      registered :
          (r : Bool × Pool) → r.0 ≡ true → (z : ℤ) × (register epoll_ctl net r ≡ some (z, r.1))
      registered (true, q) t = (_, refl)
      registered (false, q) t = cc

  take_connections-cons :
      (epoll_ctl : ℤ) (c : Conn) (cs : List (ℤ × Conn)) (p q : Pool) (z : ℤ)
      → new_tcp_task v.hooks epoll_ctl net c p ≡ some (z, q)
      → take_connections v.hooks net ((epoll_ctl, c) ∷ cs) p ≡ take_connections v.hooks net cs q
  unfolding take_connections
  take_connections-cons epoll_ctl c cs p q z e = rw e refl

  take_connections-taken :
      (cs : List (ℤ × Conn)) (p : Pool)
      → HasVerifiers p
      → (q : Pool) × (take_connections v.hooks net cs p ≡ some q)
        × ((x : ℕ) → census x q ≡ count x (conns cs) + census x p)
  unfolding take_connections
  take_connections-taken [] p n = (p, refl, λ x. omega arith)
  take_connections-taken ((epoll_ctl, c) ∷ cs) p n =
      let (z, one) = new_tcp_task-taken epoll_ctl c p n in
      let (took, still) = add_verify-taken v.hooks c p n in
      let p' = (add_verify v.hooks c p).1 in
      let (q, ran, counts) = take_connections-taken cs p' still in
      (
        q,
        take_connections-cons epoll_ctl c cs p p' z one ∙ ran,
        λ x.
            let step : census x p' ≡ here x c + census x p =
              add_verify-census x v c p ∙ ap (λ b. (if b then here x c else 0) + census x p) took in
            omega (arith, counts x, step),
      )

total-append : (x : ℕ) (us ws : List Worker) → total x (us ++ ws) ≡ total x us + total x ws
total-append x [] ws = omega arith
total-append x (u ∷ us) ws = omega (arith, total-append x us ws)

total-workers : (x n : ℕ) → total x (workers n) ≡ 0
unfolding workers new_worker
total-workers x zero = refl
total-workers x (suc n) =
    omega (arith, total-append x (workers n) (new_worker ∷ []), total-workers x n)

init-HasVerifiers : (max_conns : ℕ) → HasVerifiers (init (new_pool max_conns))
unfolding init new_pool workers
init-HasVerifiers max_conns = refl

init-census : (x max_conns : ℕ) → census x (init (new_pool max_conns)) ≡ 0
unfolding init new_pool new_worker
init-census x max_conns =
    omega (arith, total-workers x max_verify_threads, total-workers x ((max_conns + 512 - 1) / 512))

-- However many connections the accept thread hands to newTCPTask once the pool was started, the call
-- never faults (whether or not they can be registered with epoll), and the pool has exactly these
-- connections, each as often as it came.
pub take_connections-census :
    (v : Virtuals) (net : NetService) (max_conns : ℕ) (cs : List (ℤ × Conn))
    → (q : Pool) × (take_connections v.hooks net cs (init (new_pool max_conns)) ≡ some q)
      × ((x : ℕ) → census x q ≡ count x (conns cs))
take_connections-census v net max_conns cs =
    let (q, ran, counts) =
      take_connections-taken v net cs (init (new_pool max_conns)) (init-HasVerifiers max_conns) in
    (q, ran, λ x. omega (arith, counts x, init-census x max_conns))

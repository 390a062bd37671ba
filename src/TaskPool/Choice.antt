-- ===== src/TaskPool/Choice.antt =====
-- Which okay thread addOkay gives a connection to.
use ugly_ff.Base.{
  ℕ, zero, suc, ◌+◌, ◌≤◌, ◌<◌, ◌≡◌, refl, ap, sym, ◌∙◌, ◌⊎◌, inl, inr, Bool, true, false,
  Bool-cases, List, [], ◌∷◌, Option, none, some, subst, if◌then◌else◌, ltb, length, get_elem?, All,
  arith,
}
use native.Mathlib.Decide.{ℕ_discrete}
use ugly_ff.Task.{Hooks}
use ugly_ff.TaskPool.{
  Conn, Worker, worker_size, Pool, conn_per_thread, update, add, advance, least, find_okay, found,
  has_room, give, settle, start_and_give, add_okay,
}

pub get_elem?-inside {ℓ} :
    {A : Type ℓ} (xs : List A) (i : ℕ) → i < length xs → (x : A) × (get_elem? xs i ≡ some x)
get_elem?-inside [] i h = absurd (omega arith)
get_elem?-inside (x ∷ xs) zero h = (x, refl)
get_elem?-inside (x ∷ xs) (suc i) h = get_elem?-inside xs i (omega arith)

All-get_elem? {ℓ κ} :
    {A : Type ℓ} (P : A → Type κ) (xs : List A) (i : ℕ) {x : A}
    → get_elem? xs i ≡ some x
    → All P xs
    → P x
All-get_elem? P [] i e h = absurd (cc)
All-get_elem? P (y ∷ xs) zero {x} e h = let same : y ≡ x = cc in rw (sym same) h.0
All-get_elem? P (y ∷ xs) (suc i) e h = All-get_elem? P xs i e h.1

-- every element has what each index has
All-tabulate {ℓ κ} :
    {A : Type ℓ} (P : A → Type κ) (xs : List A)
    → ((i : ℕ) (x : A) → get_elem? xs i ≡ some x → P x)
    → All P xs
All-tabulate P [] h = tt
All-tabulate P (x ∷ xs) h = (h 0 x refl, All-tabulate P xs (λ i y e. h (suc i) y e))

-- the thread that the loop has chosen of the first `i`
abbrev Least : List Worker → ℕ → Option ℕ → Type 0
Least ws i none = i ≡ 0
Least ws i (some m) =
    (a : Worker) × (get_elem? ws m ≡ some a)
    × ((j : ℕ) (u : Worker) → j < i → get_elem? ws j ≡ some u → worker_size a ≤ worker_size u)

compared_lem :
    (ws : List Worker) (m i : ℕ) {a b : Worker}
    → get_elem? ws m ≡ some a
    → get_elem? ws i ≡ some b
    → least ws (some m) i ≡ (if ltb (worker_size b) (worker_size a) then i else m)
unfolding least
compared_lem ws m i e f = rw (least, e, f)

-- no thread before index `n` is smaller
abbrev NoSmaller : List Worker → ℕ → ℕ → Type 0
NoSmaller ws size n = (j : ℕ) (u : Worker) → j < n → get_elem? ws j ≡ some u → size ≤ worker_size u

NoSmaller-suc :
    (ws : List Worker) (size i : ℕ) {b : Worker}
    → get_elem? ws i ≡ some b
    → size ≤ worker_size b
    → NoSmaller ws size i
    → NoSmaller ws size (suc i)
NoSmaller-suc ws size i {b} e h k j u l f = elim (ℕ_discrete j i) [
  | yes at_i ↦
      let same : some u ≡ some b = sym f ∙ ap (get_elem? ws) at_i ∙ e in
      let it_is : u ≡ b = cc in rw it_is h
  | no before ↦ k j u (omega (arith, before)) f
]

step-Least :
    (ws : List Worker) (i : ℕ) (pmin : Option ℕ) (b : Worker)
    → get_elem? ws i ≡ some b
    → Least ws i pmin
    → Least ws (suc i) (some (least ws pmin i))
unfolding least
step-Least ws i none b e z =
    (b, e, NoSmaller-suc ws (worker_size b) i e (omega arith) (λ j u l f. absurd (omega arith)))
step-Least ws i (some m) b e (a, f, below) =
    elim (Bool-cases (ltb (worker_size b) (worker_size a))) [
      | inl y ↦
          rw (compared_lem ws m i f e, y)
            (
              b,
              e,
              NoSmaller-suc ws (worker_size b) i e (omega arith)
                  (λ j u l g. let k = below j u l g in ground arith),
            )
      | inr n ↦
          rw (compared_lem ws m i f e, n)
            (a, f, NoSmaller-suc ws (worker_size a) i e (ground arith) below)
    ]

abbrev pub Running : Worker → Type 0
Running w = w.alive ≡ true

find_okay-step :
    (ws : List Worker) (left i : ℕ) (pmin : Option ℕ) {w : Worker}
    → get_elem? ws i ≡ some w
    → w.alive ≡ true
    → find_okay ws (suc left) i pmin ≡ find_okay ws left (suc i) (some (least ws pmin i))
unfolding find_okay
find_okay-step ws left i pmin e y = rw (find_okay, e, y)

-- Over threads that all run, the loop ends with one that none of them is smaller than.
find_okay-Least :
    (ws : List Worker) (left i : ℕ) (pmin : Option ℕ)
    → All Running ws
    → i + left ≡ length ws
    → Least ws i pmin
    → (q : Option ℕ) × (find_okay ws left i pmin ≡ found q none) × Least ws (length ws) q
unfolding find_okay
find_okay-Least ws zero i pmin run e k =
    let all : i ≡ length ws = omega (arith, e) in (pmin, refl, subst (λ n. Least ws n pmin) all k)
find_okay-Least ws (suc left) i pmin run e k =
    let (w, here) = get_elem?-inside ws i (omega (arith, e)) in
    let (q, f, l) =
      find_okay-Least ws left (suc i) (some (least ws pmin i)) run (omega (arith, e))
        (step-Least ws i pmin w here k) in
    (q, find_okay-step ws left i pmin here (All-get_elem? Running ws i here run) ∙ f, l)

-- The connection went to a least full thread that has room, or all threads are full.
abbrev pub Chosen : Hooks → Conn → Pool → Bool × Pool → Type 0
Chosen h c p r =
    ((m : ℕ) × (w : Worker) × (get_elem? p.okay_threads m ≡ some w)
      × (worker_size w < conn_per_thread)
      × All (λ u. worker_size w ≤ worker_size u) p.okay_threads
      × (r ≡ (true, record p { okay_threads = update m (add (advance h c) w) p.okay_threads })))
    ⊎ (All (λ u. conn_per_thread ≤ worker_size u) p.okay_threads × (r ≡ (false, p)))

full-settle :
    (h : Hooks) (created : Bool) (c : Conn) (q : Option ℕ) (p : Pool)
    → has_room p.okay_threads q ≡ false
    → settle h created c (found q none) p ≡ (false, p)
unfolding settle start_and_give
full-settle h created c q p e = rw e

room-settle :
    (h : Hooks) (created : Bool) (c : Conn) (m : ℕ) (p : Pool) {w : Worker}
    → has_room p.okay_threads (some m) ≡ true
    → get_elem? p.okay_threads m ≡ some w
    → settle h created c (found (some m) none) p
      ≡ (true, record p { okay_threads = update m (add (advance h c) w) p.okay_threads })
unfolding settle give
room-settle h created c m p e f = rw (e, give, f) refl

has_room_at :
    (ws : List Worker) (m : ℕ) {w : Worker}
    → get_elem? ws m ≡ some w
    → has_room ws (some m) ≡ ltb (worker_size w) conn_per_thread
unfolding has_room
has_room_at ws m e = rw (has_room, e)

index_below {ℓ} :
    {A : Type ℓ} (xs : List A) (j : ℕ) {x : A} → get_elem? xs j ≡ some x → j < length xs
index_below [] j e = absurd (cc)
index_below (y ∷ xs) zero e = omega arith
index_below (y ∷ xs) (suc j) e = let k = index_below xs j e in omega arith

settle-Chosen :
    (h : Hooks) (created : Bool) (c : Conn) (q : Option ℕ) (p : Pool)
    → Least p.okay_threads (length p.okay_threads) q
    → Chosen h c p (settle h created c (found q none) p)
settle-Chosen h created c none p l = inr (
  All-tabulate _ p.okay_threads
      (λ i u e. absurd (omega (arith, index_below p.okay_threads i e, l))),
  full-settle h created c none p (unfold has_room in refl),
)
settle-Chosen h created c (some m) p (w, e, below) =
    elim (Bool-cases (ltb (worker_size w) conn_per_thread)) [
      | inl y ↦ inl (
        m,
        w,
        e,
        ground arith,
        All-tabulate _ p.okay_threads (λ i u g. below i u (index_below p.okay_threads i g) g),
        room-settle h created c m p (has_room_at p.okay_threads m e ∙ y) e,
      )
      | inr n ↦ inr (
        All-tabulate _ p.okay_threads
            (λ i u g. let k = below i u (index_below p.okay_threads i g) g in ground arith),
        full-settle h created c (some m) p (has_room_at p.okay_threads m e ∙ n),
      )
    ]

-- Where every okay thread runs (and there are as many as the pool says), addOkay gives the
-- connection, advanced to the next state, to a thread with the fewest connections, which has less
-- than 512; or it refuses and changes nothing, and then every thread has 512 or more.
pub add_okay-Chosen :
    (h : Hooks) (created : Bool) (c : Conn) (p : Pool)
    → All Running p.okay_threads
    → p.max_thread_count ≡ length p.okay_threads
    → Chosen h c p (add_okay h created c p)
unfolding add_okay
add_okay-Chosen h created c p run n =
    let (q, f, l) =
      find_okay-Least p.okay_threads p.max_thread_count 0 none run (omega (arith, n)) refl in
    subst (Chosen h c p) (sym (ap (λ r. settle h created c r p) f))
      (settle-Chosen h created c q p l)

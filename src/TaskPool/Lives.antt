-- ===== src/TaskPool/Lives.antt =====
-- The conservation of connections over any history of the pool.
use ugly_ff.Base.{
  ℕ, ◌+◌, ◌≡◌, refl, ◌∙◌, Bool, true, false, List, [], ◌∷◌, if◌then◌else◌, arith, inl, inr,
  Option-cases, get_elem?,
}
use ugly_ff.Time.{RTime}
use ugly_ff.TaskPool.{Conn, Pool, add_verify, okay_alive}
use ugly_ff.TaskPool.Census.{here, count, census, total-update}
use ugly_ff.TaskPool.Rounds.{
  Virtuals, verify_round, verify_final, sync_round, sync_final, okay_round, okay_final,
  recycle_round, recycle_final,
}
use ugly_ff.TaskPool.Census.Steps.{
  verify_round-census, verify_final-census, okay_round-census, okay_final-census, sync_round-census,
  sync_final-census, recycle_round-census, recycle_final-census, add_verify-census,
}

-- what happens to a pool: an okay thread comes to run or has run, or a thread makes a round or comes
-- to its end, with what the virtual functions answer
pub data Step (v : Virtuals) (p : Pool) : Pool → Type 0 where
  verify_goes : (now : RTime) (i : ℕ) → Step v p (verify_round v now i p)
  verify_ends : (i : ℕ) → Step v p (verify_final v i p)
  sync_goes : (created : Bool) → Step v p (sync_round v created p)
  sync_ends : Step v p (sync_final v p)
  okay_starts : (i : ℕ) → Step v p (okay_alive true i p)
  okay_stops : (i : ℕ) → Step v p (okay_alive false i p)
  okay_goes : (now : RTime) (i : ℕ) → Step v p (okay_round v now i p)
  okay_ends : (i : ℕ) → Step v p (okay_final v i p)
  recycle_goes : Step v p (recycle_round v p)
  recycle_ends : Step v p (recycle_final v p)

-- the connections that addVerify took
pub taken : Bool → Conn → List Conn → List Conn
taken true c cs = c ∷ cs
taken false c cs = cs

-- A history of a pool, with the connections that it took
pub data History (p : Pool) : List Conn → Pool → Type 0 where
  start : History p [] p
  arrives :
      {cs : List Conn} {q : Pool} (v : Virtuals) (c : Conn)
      → History p cs q
      → History p (taken (add_verify v.hooks c q).0 c cs) (add_verify v.hooks c q).1
  goes_on :
      {cs : List Conn} {q r : Pool} (v : Virtuals) → History p cs q → Step v q r → History p cs r

okay_alive-census :
    (x : ℕ) (runs : Bool) (i : ℕ) (p : Pool) → census x (okay_alive runs i p) ≡ census x p
unfolding okay_alive
okay_alive-census x runs i p = elim (Option-cases (get_elem? p.okay_threads i)) [
  | inl e ↦ rw (okay_alive, e) refl
  | inr (w, e) ↦
      rw (okay_alive, e)
        (omega (arith, total-update x i w (record w { alive = runs }) p.okay_threads e))
]

Step-census : (x : ℕ) {v : Virtuals} {p q : Pool} → Step v p q → census x q ≡ census x p
Step-census x {v} {p} (verify_goes now i) = verify_round-census x v now i p
Step-census x {v} {p} (verify_ends i) = verify_final-census x v i p
Step-census x {v} {p} (sync_goes created) = sync_round-census x v created p
Step-census x {v} {p} sync_ends = sync_final-census x v p
Step-census x {v} {p} (okay_starts i) = okay_alive-census x true i p
Step-census x {v} {p} (okay_stops i) = okay_alive-census x false i p
Step-census x {v} {p} (okay_goes now i) = okay_round-census x v now i p
Step-census x {v} {p} (okay_ends i) = okay_final-census x v i p
Step-census x {v} {p} recycle_goes = recycle_round-census x v p
Step-census x {v} {p} recycle_ends = recycle_final-census x v p

count-taken :
    (x : ℕ) (b : Bool) (c : Conn) (cs : List Conn)
    → count x (taken b c cs) ≡ (if b then here x c else 0) + count x cs
unfolding taken
count-taken x true c cs = refl
count-taken x false c cs = omega arith

-- Over any history of the pool, whatever the virtual functions answer, the pool's containers, the
-- freed tasks and the lost tasks together have each connection as often as it was there at the
-- start or was taken by addVerify: one that was taken once is in exactly one place.
pub History-census :
    (x : ℕ) {p : Pool} {cs : List Conn} {q : Pool}
    → History p cs q
    → census x q ≡ count x cs + census x p
History-census x start = omega arith
History-census x (arrives {cs} {q} v c h) = omega (
  arith,
  add_verify-census x v c q,
  count-taken x (add_verify v.hooks c q).0 c cs,
  History-census x h,
)
History-census x (goes_on v h s) = Step-census x s ∙ History-census x h

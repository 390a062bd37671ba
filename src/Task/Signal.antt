-- ===== src/Task/Signal.antt =====
-- The test signal: when a silent peer is given up.
use ugly_ff.Base.{
  ℕ, ◌≡◌, refl, ◌∙◌, inl, inr, Bool, true, false, Bool-cases, List, [], ◌∷◌, if◌then◌else◌, leb,
  length, arith,
}
use ugly_ff.Time.{RTime, Timer, fire, firings}
use ugly_ff.Task.{
  terminate_no, terminate_active, Task, is_terminate, check_interval, check_signal, set_tick,
  terminate_by,
}

-- checkSignal at each of the times, with nothing received in between
unfoldable pub checks : List RTime → Task → Task
checks [] t = t
checks (c ∷ cs) t = checks cs (check_signal c t)

-- one check, by whether the timer says yes
check_due :
    (c : RTime) (t : Task)
    → t.check_signals ≡ true
    → (fire c t.ten_min).0 ≡ true
    → check_signal c t ≡ (
        if t.tick
        then record t { ten_min = (fire c t.ten_min).1; terminate = terminate_active }
        else record t { ten_min = (fire c t.ten_min).1; tick = true })
unfolding check_signal check_interval terminate_by set_tick
check_due c t s d = rw (s, d)

check_wait :
    (c : RTime) (t : Task)
    → t.check_signals ≡ true
    → (fire c t.ten_min).0 ≡ false
    → check_signal c t ≡ record t { ten_min = (fire c t.ten_min).1 }
unfolding check_signal check_interval
check_wait c t s d = rw (s, d)

-- at which firing the task is given up: the second, or the first if a signal is out already
abbrev pub lives : Bool → ℕ
lives tick = if tick then 1 else 2

check_terminated :
    (c : RTime) (t : Task) → is_terminate t ≡ true → is_terminate (check_signal c t) ≡ true
unfolding check_signal check_interval terminate_by set_tick is_terminate
check_terminated c t h = ground arith

terminated_stays :
    (cs : List RTime) (t : Task) → is_terminate t ≡ true → is_terminate (checks cs t) ≡ true
unfolding checks
terminated_stays [] t h = h
terminated_stays (c ∷ cs) t h = terminated_stays cs (check_signal c t) (check_terminated c t h)

-- A connection whose signals are checked, and from which nothing comes, is given up at the second
-- time that its timer fires, and not before (at the first, if a signal was out already).
pub checks-lives :
    (cs : List RTime) (t : Task)
    → t.check_signals ≡ true
    → t.terminate ≡ terminate_no
    → is_terminate (checks cs t) ≡ leb (lives t.tick) (length (firings cs t.ten_min))
unfolding checks firings
checks-lives [] t s m = unfold is_terminate in ground arith
checks-lives (c ∷ cs) t s m = elim (Bool-cases (fire c t.ten_min).0) [
  | inr wait ↦
      rw (check_wait c t s wait, wait)
        (checks-lives cs (record t { ten_min = (fire c t.ten_min).1 }) s m)
  | inl due ↦ elim (Bool-cases t.tick) [
    | inl out ↦
        rw (check_due c t s due, due, out)
          (terminated_stays cs
              (record t { terminate = terminate_active; ten_min = later; tick = true }) given_up
            ∙ ground arith)
    | inr fresh ↦
        rw (check_due c t s due, due, fresh)
          (checks-lives cs (record t { ten_min = later; tick = true }) s m ∙ ground arith)
  ]
]
  where
    later : Timer
    later = (fire c t.ten_min).1

    given_up :
        is_terminate (record t { terminate = terminate_active; ten_min = later; tick = true })
        ≡ true
    given_up = unfold is_terminate in refl

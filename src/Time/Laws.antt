-- ===== src/Time/Laws.antt =====
-- What the timers promise.
use ugly_ff.Base.{
  ℕ, ◌+◌, ◌-◌, ◌≤◌, ◌<◌, ◌^◌, ◌≡◌, refl, ◌⊎◌, inl, inr, ◌≢◌, true, false, Bool-cases, List, [], ◌∷◌,
  leb, arith, All, add64,
}
use ugly_ff.Time.{
  RTime, Timer, Calendar, add_delay, elapse, fire, firings, get_local_time, ztime_now, ztime_copy,
  ztime_assign,
}

-- Each time is at least `gap` after the one before it, and the first at least `start`.
abbrev pub Spaced : ℕ → ℕ → List RTime → Type 0
Spaced gap start [] = Unit {0}
Spaced gap start (c ∷ cs) = (start ≤ c) × Spaced gap (c + gap) cs

-- The clock stays so low that no period added to it wraps.
abbrev pub Early : ℕ → RTime → Type 0
Early gap c = c + gap < 2 ^ 64

-- Asked at any times, in any order, none of them so late that a period added to it wraps, a timer
-- says yes at times that lie at least its period apart, the first of them not before its deadline.
pub firings-Spaced :
    (cs : List RTime) (t : Timer) → All (Early t.long) cs → Spaced t.long t.timer (firings cs t)
unfolding firings fire add_delay
firings-Spaced [] t e = tt
firings-Spaced (c ∷ cs) t e = elim (Bool-cases (leb t.timer c)) [
  | inl due ↦
      let wrap : add64 c t.long ≡ c + t.long = omega arith in
      rw (due, wrap) (ground arith, firings-Spaced cs (record t { timer = c + t.long }) e.1)
  | inr wait ↦ rw wait (firings-Spaced cs t e.1)
]

-- It says yes exactly from its deadline on, and its next deadline is one period after that time.
pub fire_lem :
    (c : RTime) (t : Timer)
    → Early t.long c
    → ((t.timer ≤ c) × ((fire c t).0 ≡ true) × ((fire c t).1.timer ≡ c + t.long))
      ⊎ ((c < t.timer) × (fire c t ≡ (false, t)))
unfolding fire add_delay
fire_lem c t e = ground arith

-- `elapse` is the distance forwards, and 0 backwards.
pub elapse_lem : (t rt : RTime) → t < 2 ^ 64 → rt < 2 ^ 64 → elapse t rt ≡ rt - t
unfolding elapse
elapse_lem t rt h k = ground arith

-- An assigned zTime shows the calendar of the time it had before: where the two calendars differ, it
-- is not the calendar of its seconds, as it is after a copy construction.
pub ztime_assign-stale :
    (gmtime : ℕ → Calendar) (a b : ℕ)
    → get_local_time gmtime a ≢ get_local_time gmtime b
    → ((ztime_copy gmtime (ztime_now gmtime b)).tv ≡ get_local_time gmtime b)
      × ((ztime_assign (ztime_now gmtime a) (ztime_now gmtime b)).secs ≡ b)
      × ((ztime_assign (ztime_now gmtime a) (ztime_now gmtime b)).tv ≢ get_local_time gmtime b)
unfolding ztime_copy ztime_now ztime_assign
ztime_assign-stale gmtime a b h = (refl, refl, h)

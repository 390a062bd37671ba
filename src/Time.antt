-- ===== src/Time.antt =====
-- include/engine.h: the clock values zRTime (milliseconds) and zTime (seconds), and Timer.
-- A QWORD is a 64-bit word. What gettimeofday(), time() and gmtime() return are arguments.
use ugly_ff.Base.{
  ℕ, ◌+◌, ◌-◌, ◌*◌, ◌/◌, Bool, true, false, List, [], ◌∷◌, if◌then◌else◌, ltb, leb, ◌==◌, add64,
  sub64, arith,
}
pub mod Laws
pub mod Operators

-- zRTime is its one field `_msecs`.
abbrev pub RTime : Type 0
RTime = ℕ

-- zRTime::_now over the seconds and microseconds of a timeval
unfoldable pub now_msecs : ℕ → ℕ → RTime
now_msecs sec usec = add64 (add64 (sec * 1000) 0) (usec / 1000)

-- zRTime::addDelay; the timers' delays are not negative.
unfoldable pub add_delay : ℕ → RTime → RTime
add_delay delay t = add64 t delay

-- nowByDelay, and with it the constructor, at the clock `now`
unfoldable pub now_by_delay : RTime → ℕ → RTime
unfolding add_delay
now_by_delay now delay = add_delay delay now

-- zRTime::sec
unfoldable pub sec : RTime → ℕ
sec t = t / 1000

-- operator+ and operator-: the left operand is changed, and returned.
unfoldable pub plus : RTime → RTime → RTime
plus t rt = add64 t rt

unfoldable pub minus : RTime → RTime → RTime
minus t rt = sub64 t rt

-- zRTime::elapse: from this time to `rt`
unfoldable pub elapse : RTime → RTime → ℕ
elapse t rt = if ltb t rt then sub64 rt t else 0

-- struct tm, as far as zTime hands it out
pub record Calendar : Type 0 where
  pub tm_sec : ℕ
  pub tm_min : ℕ
  pub tm_hour : ℕ
  pub tm_mday : ℕ
  pub tm_wday : ℕ
  pub tm_mon : ℕ
  pub tm_year : ℕ

pub record ZTime : Type 0 where
  pub secs : ℕ
  pub tv : Calendar

module _ (gmtime : ℕ → Calendar) where
  -- zRTime::getLocalTime: eight hours east of Greenwich
  unfoldable pub get_local_time : ℕ → Calendar
  get_local_time t = gmtime (t + 8 * 60 * 60)

  -- the constructor zTime() and zTime::now, at the clock `time`
  unfoldable pub ztime_now : ℕ → ZTime
  ztime_now time = record { secs = time; tv = get_local_time time }

  -- the copy constructor
  unfoldable pub ztime_copy : ZTime → ZTime
  ztime_copy ct = record { secs = ct.secs; tv = get_local_time ct.secs }

-- zTime::operator=, which leaves `tv` alone
unfoldable pub ztime_assign : ZTime → ZTime → ZTime
ztime_assign t rt = record t { secs = rt.secs }

-- zTime::elapse(rt)
unfoldable pub ztime_elapse : ZTime → ZTime → ℕ
ztime_elapse t rt = if ltb t.secs rt.secs then rt.secs - t.secs else 0

unfoldable pub get_month : ZTime → ℕ
get_month t = t.tv.tm_mon + 1

unfoldable pub get_year : ZTime → ℕ
get_year t = t.tv.tm_year + 1900

-- Timer: `_long` is the period, in the milliseconds of addDelay.
pub record Timer : Type 0 where
  pub long : ℕ
  pub timer : RTime

-- Timer(how_long, delay), at the clock `now`
unfoldable pub new_timer : RTime → ℕ → ℕ → Timer
unfolding now_by_delay
new_timer now how_long delay = record { long = how_long; timer = now_by_delay now (delay * 1000) }

-- Timer(how_long, cur)
unfoldable pub new_timer_at : ℕ → RTime → Timer
unfolding add_delay
new_timer_at how_long cur = record { long = how_long; timer = add_delay how_long cur }

-- Timer::next
unfoldable pub next : RTime → Timer → Timer
unfolding add_delay
next cur t = record t { timer = add_delay t.long cur }

-- Timer::operator(): whether it is time, and the timer afterwards
unfoldable pub fire : RTime → Timer → Bool × Timer
unfolding add_delay
fire current t =
    if leb t.timer current
    then (true, record t { timer = add_delay t.long current })
    else (false, t)

-- a timer asked at each of the times: those at which it said yes
unfoldable pub firings : List RTime → Timer → List RTime
firings [] t = []
firings (c ∷ cs) t = let rest = firings cs (fire c t).1 in if (fire c t).0 then c ∷ rest else rest

-- ===== src/Time/Operators.antt =====
-- include/engine.h: the comparisons and the getters of zRTime and zTime, and the clock since the
-- start of the machine.
use ugly_ff.Base.{ℕ, ◌+◌, ◌*◌, ◌/◌, ◌≤◌, ◌<◌, Bool, ltb, leb, ◌==◌, arith, add64}
use ugly_ff.Time.{RTime, ZTime}

-- zRTime's operators >, >=, <, <= and ==
unfoldable pub rtime_gt : RTime → RTime → Bool
rtime_gt t rt = ltb rt t

unfoldable pub rtime_ge : RTime → RTime → Bool
rtime_ge t rt = leb rt t

unfoldable pub rtime_lt : RTime → RTime → Bool
rtime_lt t rt = ltb t rt

unfoldable pub rtime_le : RTime → RTime → Bool
rtime_le t rt = leb t rt

unfoldable pub rtime_eq : RTime → RTime → Bool
rtime_eq t rt = t == rt

-- zTime::operator+, which changes the left operand, for sums that a time_t holds
unfoldable pub ztime_plus : ZTime → ZTime → ZTime
ztime_plus t rt = record t { secs = t.secs + rt.secs }

-- zTime's operators >, >=, <, <= and ==
unfoldable pub ztime_gt : ZTime → ZTime → Bool
ztime_gt t rt = ltb rt.secs t.secs

unfoldable pub ztime_ge : ZTime → ZTime → Bool
ztime_ge t rt = leb rt.secs t.secs

unfoldable pub ztime_lt : ZTime → ZTime → Bool
ztime_lt t rt = ltb t.secs rt.secs

unfoldable pub ztime_le : ZTime → ZTime → Bool
ztime_le t rt = leb t.secs rt.secs

unfoldable pub ztime_eq : ZTime → ZTime → Bool
ztime_eq t rt = t.secs == rt.secs

unfoldable pub ztime_sec : ZTime → ℕ
ztime_sec t = t.secs

unfoldable pub get_sec : ZTime → ℕ
get_sec t = t.tv.tm_sec

unfoldable pub get_min : ZTime → ℕ
get_min t = t.tv.tm_min

unfoldable pub get_hour : ZTime → ℕ
get_hour t = t.tv.tm_hour

unfoldable pub get_mday : ZTime → ℕ
get_mday t = t.tv.tm_mday

unfoldable pub get_wday : ZTime → ℕ
get_wday t = t.tv.tm_wday

-- GetTimeFromSystemPower over the seconds and nanoseconds of a timespec
unfoldable pub power_time : ℕ → ℕ → ℕ
power_time sec nsec = add64 (sec * 1000) (nsec / 1000)

-- The nanoseconds count as microseconds, so this clock of milliseconds falls back at the end of a
-- second (within the range of an `unsigned long`).
pub power_time_falls :
    (sec nsec : ℕ)
    → 1001000 ≤ nsec
    → nsec < 1000000000
    → sec < 1000000000000
    → power_time (sec + 1) 0 < power_time sec nsec
unfolding power_time
power_time_falls sec nsec h k l = omega arith

-- ===== src/Analysis/Tally.antt =====
-- include/engine.h: the counters of CmdAnalysis against the record of the calls.
use ugly_ff.Base.{
  ℕ, ◌+◌, ◌%◌, ◌^◌, ◌≡◌, refl, sym, Bool, true, false, ◌&&◌, List, [], ◌∷◌, if◌then◌else◌, ◌==◌,
  subst, arith, Bool-cases, inl, inr,
}
use ugly_ff.Time.{RTime, Timer, fire}
use ugly_ff.Analysis.{Table, zero_table, CmdAnalysis, count_in, report, analysis_add}

-- a call of add with its clock
pub record AddCall : Type 0 where
  pub cmd : ℕ
  pub para : ℕ
  pub size : ℕ
  pub now : RTime

abbrev pub add_call : AddCall → CmdAnalysis → CmdAnalysis
add_call c a = analysis_add c.cmd c.para c.size c.now a

unfoldable pub run_adds : List AddCall → CmdAnalysis → CmdAnalysis
run_adds [] a = a
run_adds (c ∷ cs) a = run_adds cs (add_call c a)

-- the calls since the timer was last due, newest first
abbrev kept : Bool × Timer → List AddCall → List AddCall
kept (true, t) calls = []
kept (false, t) calls = calls

pub since_report : List AddCall → Timer → List AddCall → List AddCall
since_report [] t calls = calls
since_report (c ∷ cs) t calls = since_report cs (fire c.now t).1 (kept (fire c.now t) (c ∷ calls))

-- how many of the calls have the command and the parameter, and the bytes of these
abbrev pub is_of : ℕ → ℕ → AddCall → Bool
is_of cmd para c = cmd == c.cmd && para == c.para

abbrev pub count_of : ℕ → ℕ → List AddCall → ℕ
count_of cmd para [] = 0
count_of cmd para (c ∷ cs) = (if is_of cmd para c then 1 else 0) + count_of cmd para cs

abbrev pub bytes_of : ℕ → ℕ → List AddCall → ℕ
bytes_of cmd para [] = 0
bytes_of cmd para (c ∷ cs) = (if is_of cmd para c then c.size else 0) + bytes_of cmd para cs

abbrev pub Tallies : Table → List AddCall → Type 0
Tallies t calls =
    (cmd para : ℕ)
    → ((t cmd para).num ≡ count_of cmd para calls % 2 ^ 64)
      × ((t cmd para).size ≡ bytes_of cmd para calls % 2 ^ 64)

-- The analysis is on, its counters are those of `calls`, and its timer is `t`.
record Counts (a : CmdAnalysis) (t : Timer) (calls : List AddCall) : Type 0 where
  is_on : a.switch ≡ true
  timer_is : a.log_timer ≡ t
  tallies : Tallies a.table calls

zero_Tallies : Tallies zero_table []
zero_Tallies cmd para = (refl, refl)

count_in-Tallies :
    (c : AddCall) (t : Table) (calls : List AddCall)
    → Tallies t calls
    → Tallies (count_in c.cmd c.para c.size t) (c ∷ calls)
unfolding count_in
count_in-Tallies c t calls h cmd para = elim (Bool-cases (is_of cmd para c)) [
  | inl same ↦ let (n, s) = h cmd para in rw same (omega arith, omega arith)
  | inr differ ↦ let (n, s) = h cmd para in rw differ (omega arith, omega arith)
]

report-Counts :
    (f : Bool × Timer) (a : CmdAnalysis) (calls : List AddCall)
    → a.switch ≡ true
    → Tallies a.table calls
    → Counts (report f a) f.1 (kept f calls)
unfolding report
report-Counts (true, t) a calls on h = record {
  is_on = on;
  timer_is = refl;
  tallies = zero_Tallies;
}
report-Counts (false, t) a calls on h = record { is_on = on; timer_is = refl; tallies = h }

by_switch :
    (b : Bool) (on off : CmdAnalysis) (t : Timer) (calls : List AddCall)
    → b ≡ true
    → Counts on t calls
    → Counts (if b then on else off) t calls
by_switch true on off t calls h c = c
by_switch false on off t calls h c = cc

add-Counts :
    (c : AddCall) (a : CmdAnalysis) (t : Timer) (calls : List AddCall)
    → Counts a t calls
    → Counts (add_call c a) (fire c.now t).1 (kept (fire c.now t) (c ∷ calls))
unfolding analysis_add
add-Counts c a t calls h =
    let next = record a { table = count_in c.cmd c.para c.size a.table } in
    let reported : Counts (report (fire c.now a.log_timer) next) (fire c.now a.log_timer).1
        (kept (fire c.now a.log_timer) (c ∷ calls)) =
      report-Counts (fire c.now a.log_timer) next (c ∷ calls) h.is_on
        (count_in-Tallies c a.table calls h.tallies) in
    subst (λ (u : Timer). Counts (add_call c a) (fire c.now u).1 (kept (fire c.now u) (c ∷ calls)))
      h.timer_is (by_switch a.switch _ a _ _ h.is_on reported)

run_adds-Counts :
    (cs : List AddCall) (a : CmdAnalysis) (t : Timer) (calls : List AddCall)
    → Counts a t calls
    → Tallies (run_adds cs a).table (since_report cs t calls)
unfolding run_adds since_report
run_adds-Counts [] a t calls h = h.tallies
run_adds-Counts (c ∷ cs) a t calls h = run_adds-Counts cs _ _ _ (add-Counts c a t calls h)

-- The analysis that is switched on counts, for each command and parameter, the calls of add since
-- its timer was last due and their bytes, each modulo 2^64. (It starts with empty counters.)
pub run_adds-Tallies :
    (cs : List AddCall) (a : CmdAnalysis)
    → a.switch ≡ true
    → a.table ≡ zero_table
    → Tallies (run_adds cs a).table (since_report cs a.log_timer [])
run_adds-Tallies cs a on empty = run_adds-Counts cs a a.log_timer [] record {
  is_on = on;
  timer_is = refl;
  tallies = subst (λ t. Tallies t []) (sym empty) zero_Tallies;
}

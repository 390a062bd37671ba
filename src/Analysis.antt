-- ===== src/Analysis.antt =====
-- include/engine.h: CmdAnalysis, the counters of commands and their bytes.
pub mod Tally
use ugly_ff.Base.{
  ℕ, ◌-◌, Bool, true, false, ◌&&◌, List, [], ◌∷◌, ◌++◌, if◌then◌else◌, ◌==◌, add64, take, drop,
  length,
}
use ugly_ff.Text.Case.{Text}
use ugly_ff.Time.{RTime, Timer, new_timer, fire}

-- the two DWORDs of a cell of `_data`
pub record Cell : Type 0 where
  pub num : ℕ
  pub size : ℕ

abbrev pub no_calls : Cell
no_calls = record { num = 0; size = 0 }

-- `_data[256][256]`, by command and parameter, which are bytes
abbrev pub Table : Type 0
Table = ℕ → ℕ → Cell

abbrev pub zero_table : Table
zero_table cmd para = no_calls

pub record CmdAnalysis : Type 0 where
  pub table : Table
  pub log_timer : Timer
  pub disc : Text
  pub switch : Bool

unfoldable pub zeros : ℕ → Text
zeros ℕ.zero = []
zeros (ℕ.suc n) = 0 ∷ zeros n

-- `bzero_(_disc, sizeof(disc))`, which clears as many bytes as a pointer has, and the strncpy, over
-- the 256 bytes that were in the place
unfoldable pub set_disc : Text → Text → Text
unfolding zeros
set_disc text memory =
    let cleared = zeros 8 ++ drop 8 memory in
    take 255 text ++ zeros (255 - length text) ++ drop 255 cleared

-- the constructor, at the clock `now`; the timer's delay is 0
unfoldable pub new_analysis : Text → RTime → Text → ℕ → CmdAnalysis
unfolding set_disc new_timer
new_analysis memory now text time_secs = record {
  table = zero_table;
  log_timer = new_timer now time_secs 0;
  disc = set_disc text memory;
  switch = false;
}

-- `_data[cmd][para].num++` and `_data[cmd][para].size += size`
unfoldable pub count_in : ℕ → ℕ → ℕ → Table → Table
count_in cmd para size t c p =
    if c == cmd && p == para
    then record { num = add64 (t c p).num 1; size = add64 (t c p).size size }
    else t c p

-- after the timer was asked: the report, which is commented out, and the clearing
unfoldable pub report : Bool × Timer → CmdAnalysis → CmdAnalysis
report (true, t) a = record a { table = zero_table; log_timer = t }
report (false, t) a = record a { log_timer = t }

-- add, at the clock `now`
unfoldable pub analysis_add : ℕ → ℕ → ℕ → RTime → CmdAnalysis → CmdAnalysis
unfolding count_in report fire
analysis_add cmd para size now a =
    if a.switch
    then report (fire now a.log_timer) (record a { table = count_in cmd para size a.table })
    else a

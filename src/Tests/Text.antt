-- ===== src/Tests/Text.antt =====
-- The text helpers' theorems, and those of the counters, at concrete texts.
use ugly_ff.Base.{◌≡◌, refl, true, List, [], ◌∷◌, ◌++◌, some}
use ugly_ff.Text.Case.{Text, to_lower}
use ugly_ff.Text.Find.{among}
use ugly_ff.Text.Tokens.{stringtok, split_words, limit}
use ugly_ff.Text.Tokens.Split.{stringtok-split_words}
use ugly_ff.Text.Tokens.Join.{join, stringtok-join}
use ugly_ff.Text.Parse.{parse, ParseSays, parse-ParseSays}
use ugly_ff.Text.Properties.{
  PropertyCall, set_call, get_call, assign_call, get_property, run_properties, last_set,
  run_properties-last_set,
}
use ugly_ff.Analysis.{analysis_add, CmdAnalysis, zero_table}
use ugly_ff.Analysis.Tally.{AddCall, run_adds, since_report, Tallies, run_adds-Tallies}

-- "a, bc d"
abbrev sample : Text
sample = b'a' ∷ b',' ∷ b' ' ∷ b'b' ∷ b'c' ∷ b' ' ∷ b'd' ∷ []

abbrev delimiters : Text
delimiters = b',' ∷ b' ' ∷ []

stringtok-split_words_example :
    stringtok [] sample delimiters 1 ≡ some ([] ++ split_words delimiters (limit 1 0) [] sample)
stringtok-split_words_example = stringtok-split_words sample delimiters 1 []

all_tokens :
    stringtok [] sample delimiters 0 ≡ some ((b'a' ∷ []) ∷ (b'b' ∷ b'c' ∷ []) ∷ (b'd' ∷ []) ∷ [])
unfolding stringtok
all_tokens = refl

-- With a `deep` of 1 one token is cut off, and the rest is whole.
one_token :
    stringtok [] sample delimiters 1 ≡ some ((b'a' ∷ []) ∷ (b'b' ∷ b'c' ∷ b' ' ∷ b'd' ∷ []) ∷ [])
unfolding stringtok
one_token = refl

abbrev words : List Text
words = (b'a' ∷ []) ∷ (b'b' ∷ b'c' ∷ []) ∷ []

stringtok-join_example : stringtok [] (join b',' words) delimiters 0 ≡ some words
unfolding among
stringtok-join_example =
    stringtok-join delimiters b',' words refl ((refl, tt), ((refl, (refl, tt)), tt))

-- "key=value", cut at "="
abbrev setting : Text
setting = b'k' ∷ b'e' ∷ b'y' ∷ b'=' ∷ b'v' ∷ b'a' ∷ b'l' ∷ b'u' ∷ b'e' ∷ []

parse-ParseSays_example : ParseSays setting (b'=' ∷ []) (parse setting (b'=' ∷ []))
parse-ParseSays_example = parse-ParseSays setting (b'=' ∷ [])

-- The second text is "=val".
parse-setting :
    parse setting (b'=' ∷ []) ≡ some (b'k' ∷ b'e' ∷ b'y' ∷ [], b'=' ∷ b'v' ∷ b'a' ∷ b'l' ∷ [])
unfolding parse
parse-setting = refl

abbrev calls : List PropertyCall
calls =
    set_call (b'P' ∷ b'o' ∷ []) (b'1' ∷ [])
    ∷ get_call (b'x' ∷ [])
    ∷ assign_call (b'p' ∷ b'O' ∷ []) (b'2' ∷ [])
    ∷ []

run_properties-last_set_example :
    ((get_property (b'p' ∷ b'o' ∷ []) (run_properties calls [])).0
      ≡ last_set (b'p' ∷ b'o' ∷ []) calls [])
    × ((get_property (to_lower (b'p' ∷ b'o' ∷ [])) (run_properties calls [])).0
        ≡ last_set (b'p' ∷ b'o' ∷ []) calls [])
run_properties-last_set_example = run_properties-last_set (b'p' ∷ b'o' ∷ []) calls

set_last : (get_property (b'p' ∷ b'o' ∷ []) (run_properties calls [])).0 ≡ b'2' ∷ []
unfolding get_property run_properties
set_last = refl

abbrev counter : CmdAnalysis
counter = record {
  table = zero_table;
  log_timer = record { long = 100; timer = 50 };
  disc = [];
  switch = true;
}

abbrev adds : List AddCall
adds =
    record { cmd = 1; para = 2; size = 30; now = 10 }
    ∷ record { cmd = 1; para = 2; size = 40; now = 60 }
    ∷ record { cmd = 1; para = 2; size = 50; now = 70 }
    ∷ []

run_adds-Tallies_example :
    Tallies (run_adds adds counter).table (since_report adds counter.log_timer [])
run_adds-Tallies_example = run_adds-Tallies adds counter refl refl

-- The second call made the timer due, and the third is counted from 0.
third_call : ((run_adds adds counter).table 1 2).size ≡ 50
unfolding run_adds analysis_add
third_call = refl

-- ===== src/Tests/Thread.antt =====
-- A group of three threads.
use ugly_ff.Base.{ℕ, ◌≡◌, refl, true, false, [], ◌∷◌, some, none, if◌then◌else◌, ◌==◌, All}
use ugly_ff.Thread.{
  Thread, ThreadGroup, new_thread, get_by_index, has_thread, same_pointer, join_all, join_from_back,
  join_thread,
}
use ugly_ff.Thread.Group.{Different, add_all, add_all-Different}
use ugly_ff.Thread.Join.{Ready, Joined, join_all-Joined}

abbrev three : ThreadGroup
three = record { vts = some 1 ∷ some 2 ∷ some 3 ∷ []; threads = λ p. new_thread true; deleted = [] }

three-Different : Different three.vts
unfolding has_thread same_pointer
three-Different = (refl, (refl, (refl, tt)))

add_all-Different_example :
    Different (add_all (some 2 ∷ some 9 ∷ []) three).vts
    × (get_by_index 2 (add_all (some 2 ∷ some 9 ∷ []) three) ≡ some 3)
add_all-Different_example = add_all-Different (some 2 ∷ some 9 ∷ []) three 2 three-Different refl

-- three threads that were started; the third has not come to run yet
abbrev working : ℕ → Thread
working p = record (new_thread true) { alive = if p == 3 then false else true; has_handle = true }

abbrev three_working : ThreadGroup
three_working = record {
  vts = some 1 ∷ none ∷ some 2 ∷ some 3 ∷ [];
  threads = working;
  deleted = [];
}

three_working-Different : Different three_working.vts
unfolding has_thread same_pointer
three_working-Different = (refl, (refl, (refl, (refl, tt))))

join_all-Joined_example :
    (All (Ready (λ p. false) working) three_working.vts
      → (h : ThreadGroup) × (join_all (λ p. false) three_working ≡ some h)
        × Joined three_working.vts (record three_working { vts = [] }) h)
    × ((h : ThreadGroup)
        → join_all (λ p. false) three_working ≡ some h
        → All (Ready (λ p. false) working) three_working.vts)
join_all-Joined_example = join_all-Joined (λ p. false) three_working three_working-Different

working-Ready : All (Ready (λ p. false) working) three_working.vts
unfolding new_thread
working-Ready = (
  record { started = refl; joinable = refl; stays = refl },
  (
    tt,
    (
      record { started = refl; joinable = refl; stays = refl },
      (record { started = refl; joinable = refl; stays = refl }, tt),
    ),
  ),
)

-- A group with a thread that was never started does not come back.
never_started : join_all (λ p. false) three ≡ none
unfolding join_all join_from_back join_thread new_thread
never_started = refl

-- ===== src/Task/States.antt =====
-- The life cycle of a connection.
use ugly_ff.Base.{◌≡◌, refl, sym, subst, subst₂, Bool, true}
use ugly_ff.Socket.{Socket}
use ugly_ff.Time.{RTime}
use ugly_ff.Task.{
  State, notuse, verify, synced, okay, recycle, Task, Hooks, new_task, set_state, next_from,
  get_next_state, reset_state,
}

-- A subclass's hooks leave the state and the buffering alone.
pub record Discreet (h : Hooks) : Type 0 where
  pub adds_state : (t : Task) → (h.add_to_container t).state ≡ t.state
  pub adds_buffered : (t : Task) → (h.add_to_container t).buffered ≡ t.buffered
  pub removes_buffered : (t : Task) → (h.remove_from_container t).buffered ≡ t.buffered

-- the order of the states
abbrev pub after : State → State
after notuse = verify
after verify = synced
after synced = okay
after okay = recycle
after recycle = notuse

-- what the pool's threads do to the state of a task
pub data Move (h : Hooks) : Task → Task → Type 0 where
  advance : (t : Task) → Move h t (get_next_state h t)
  drop_out : (t : Task) → Move h t (reset_state t)

pub data Reach (h : Hooks) (s : Task) : Task → Type 0 where
  here : Reach h s s
  step : {t u : Task} → Reach h s t → Move h t u → Reach h s u

-- Buffering is turned on on the way into `okay`.
abbrev pub buffered_after : State → Bool → Bool
buffered_after synced b = true
buffered_after notuse b = b
buffered_after verify b = b
buffered_after okay b = b
buffered_after recycle b = b

next_from-after : (h : Hooks) (s : State) (t : Task) → (next_from h s t).state ≡ after s
unfolding next_from set_state
next_from-after h notuse t = refl
next_from-after h verify t = refl
next_from-after h synced t = refl
next_from-after h okay t = refl
next_from-after h recycle t = refl

pub get_next_state-state : (h : Hooks) (t : Task) → (get_next_state h t).state ≡ after t.state
unfolding get_next_state
get_next_state-state h t = next_from-after h t.state t

next_from-buffered :
    (h : Hooks) (s : State) (t : Task)
    → Discreet h
    → (next_from h s t).buffered ≡ buffered_after s t.buffered
unfolding next_from set_state
next_from-buffered h notuse t d = refl
next_from-buffered h verify t d = refl
next_from-buffered h synced t d = d.adds_buffered (record t { buffered = true })
next_from-buffered h okay t d = d.removes_buffered t
next_from-buffered h recycle t d = refl

abbrev OkayBuffered : State → Bool → Type 0
OkayBuffered okay b = b ≡ true
OkayBuffered notuse b = Unit {0}
OkayBuffered verify b = Unit {0}
OkayBuffered synced b = Unit {0}
OkayBuffered recycle b = Unit {0}

after-OkayBuffered : (s : State) (b : Bool) → OkayBuffered (after s) (buffered_after s b)
after-OkayBuffered notuse b = tt
after-OkayBuffered verify b = tt
after-OkayBuffered synced b = refl
after-OkayBuffered okay b = tt
after-OkayBuffered recycle b = tt

Reach-OkayBuffered :
    (h : Hooks) {s t : Task}
    → Discreet h
    → OkayBuffered s.state s.buffered
    → Reach h s t
    → OkayBuffered t.state t.buffered
unfolding get_next_state reset_state
Reach-OkayBuffered h d i here = i
Reach-OkayBuffered h d i (step r (advance t)) =
    subst₂ OkayBuffered (sym (next_from-after h t.state t)) (sym (next_from-buffered h t.state t d))
      (after-OkayBuffered t.state t.buffered)
Reach-OkayBuffered h d i (step r (drop_out t)) = tt

-- Whatever sequence of getNextState and resetState a new connection goes through, in the main loop
-- (state `okay`) it is buffered, if the subclass's hooks leave state and buffering alone.
pub okay-buffered :
    (h : Hooks) (now : RTime) (check garbage : Bool) (sock : Socket) {t : Task}
    → Discreet h
    → Reach h (new_task now check garbage sock) t
    → t.state ≡ okay
    → t.buffered ≡ true
unfolding new_task
okay-buffered h now check garbage sock {t} d r e =
    subst (λ s. OkayBuffered s t.buffered) e (Reach-OkayBuffered h d tt r)

-- ===== src/Tests/Task.antt =====
-- The connection's theorems at concrete tasks.
use ugly_ff.Base.{ℕ, ◌≡◌, refl, true, false, List, [], ◌∷◌, some, arith, length, leb}
use ugly_ff.Buffer.Laws.{contents}
use ugly_ff.Packet.{pack_head}
use ugly_ff.Time.{RTime, firings}
use ugly_ff.Socket.{is_invalid}
use ugly_ff.Task.{Task, Hooks, new_task, get_next_state, is_terminate, Heard, listening_recv}
use ugly_ff.Task.Signal.{checks, checks-lives, lives}
use ugly_ff.Task.States.{Discreet, here, step, advance, okay-buffered}
use ugly_ff.Task.Listening.{Keeps, Holding, requests, listening_recv-messages}
use ugly_ff.Tests.Stream.{hello, bye, open_socket, received}

abbrev plain : Hooks
plain = record { add_to_container = λ t. t; remove_from_container = λ t. t }

plain-Discreet : Discreet plain
plain-Discreet = record {
  adds_state = λ t. refl;
  adds_buffered = λ t. refl;
  removes_buffered = λ t. refl;
}

abbrev fresh : Task
fresh = new_task 1000 true true open_socket

-- the connection in the main loop
abbrev served : Task
served = get_next_state plain (get_next_state plain (get_next_state plain fresh))

okay-buffered_example : served.buffered ≡ true
unfolding new_task get_next_state
okay-buffered_example =
    okay-buffered plain 1000 true true open_socket plain-Discreet
      (step (step (step here (advance _)) (advance _)) (advance _)) refl

abbrev five_times : List RTime
five_times = 5000 ∷ 32000 ∷ 40000 ∷ 70000 ∷ 110000 ∷ []

checks-lives_example :
    is_terminate (checks five_times fresh)
    ≡ leb (lives fresh.tick) (length (firings five_times fresh.ten_min))
unfolding new_task
checks-lives_example = checks-lives five_times fresh refl refl

abbrev pub ignore : List ℕ → Task → Task
ignore m t = t

pub ignore-Keeps : Keeps ignore
ignore-Keeps = record { sock = λ m t. refl; queue = λ m t. refl }

abbrev full : Task
full = record fresh { socket = received }

full-Holding : Holding (hello ∷ bye ∷ []) full.socket
unfolding pack_head is_invalid
full-Holding = record {
  opened = refl;
  valid = record { ordered = omega arith; within = omega arith };
  bound = omega arith;
  holds = refl;
}

listening_recv-messages_example :
    (r : Heard) × (listening_recv ignore 3 4 false full ≡ some (true, r))
    × (r.messages ≡ requests 3 (hello ∷ bye ∷ []))
    × (contents r.task.socket.rcv_queue ≡ [])
listening_recv-messages_example =
    listening_recv-messages ignore 3 4 (hello ∷ bye ∷ []) full ignore-Keeps (omega arith)
      (omega arith) full-Holding

-- ===== src/Tests/Client.antt =====
-- The client's theorems at a concrete connection.
use ugly_ff.Base.{ℕ, refl, List, [], ◌∷◌, get_or, arith}
use ugly_ff.Buffer.{trunk_size, new_buffer}
use ugly_ff.Buffer.Laws.{new_buffer-IsValid}
use ugly_ff.Packet.{pack_head}
use ugly_ff.Packet.Frames.{frames}
use ugly_ff.Socket.{Socket, is_invalid}
use ugly_ff.Socket.Send.{Sending, room}
use ugly_ff.Task.Listening.{Holding}
use ugly_ff.Client.{client_listen}
use ugly_ff.Client.Dealing.{LeavesAlone, Dealt}
use ugly_ff.Client.Echo.{client_listen-Dealt}
use ugly_ff.Tests.Stream.{hello, open_socket}

-- a test signal, and a message behind it
abbrev signal : List ℕ
signal = 0 ∷ 0 ∷ []

abbrev listening : Socket
listening = record open_socket {
  rcv_queue = record {
    max_size = trunk_size;
    off_ptr = 0;
    curr_ptr = 13;
    buffer = λ i. get_or (frames (signal ∷ hello ∷ [])) i 0;
  };
}

listening-Holding : Holding (signal ∷ hello ∷ []) listening
unfolding pack_head is_invalid
listening-Holding = record {
  opened = refl;
  valid = record { ordered = omega arith; within = omega arith };
  bound = omega arith;
  holds = refl;
}

abbrev reads_only : List ℕ → Socket → Socket
reads_only m s = s

abbrev roomy : ℕ → Sending
roomy fuel = room 4

reads_only-LeavesAlone : LeavesAlone reads_only
reads_only-LeavesAlone = record { sock = λ m s. refl; queue = λ m s. refl; waiting = λ m s. refl }

client_listen-Dealt_example :
    Dealt 0 (signal ∷ hello ∷ []) listening (client_listen reads_only 0 roomy 3 listening)
unfolding new_buffer
client_listen-Dealt_example =
    client_listen-Dealt reads_only 0 roomy 3 (signal ∷ hello ∷ []) listening reads_only-LeavesAlone
      ((omega arith, omega arith), ((omega arith, omega arith), tt)) (omega arith) listening-Holding
      new_buffer-IsValid (omega arith)

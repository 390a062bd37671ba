-- ===== src/Tests/Stream.antt =====
-- The socket's theorems at concrete commands.
use ugly_ff.Base.{
  ℕ, ◌+◌, ◌≤◌, ◌<◌, ◌≡◌, refl, ◌⊎◌, true, false, List, [], ◌∷◌, ◌++◌, Option, none, some, arith,
  length, pos, get_or,
}
use ugly_ff.Buffer.{ByteBuffer, trunk_size, new_buffer}
use ugly_ff.Buffer.Laws.{IsValid, contents, new_buffer-IsValid}
use ugly_ff.Buffer.Refine.{Use, puts, flips, run, queue, demand, run-queue}
use ugly_ff.Packet.{pack_head, pack_head_size, packet_append}
use ugly_ff.Packet.Frames.{frame, frames, Packed, packet_append-frame}
use ugly_ff.Socket.{Socket, eagain, is_invalid, Round}
use ugly_ff.Socket.Send.{room, failed, Sent, send_cmd, sync}
use ugly_ff.Socket.Send.Stream.{Outcome, send_cmd-Outcome}
use ugly_ff.Socket.Send.Session.{Call, sends, syncs, Session, session, session-stream, sync-Outcome}
use ugly_ff.Socket.Receive.{Command, recv_to_cmd}
use ugly_ff.Socket.Receive.Stream.{Assembling}
use ugly_ff.Socket.Receive.Run.{Progress, receive, Run, receive-Run, receive-delivers}
use ugly_ff.Socket.Receive.Take.{Taken, recv_to_cmd-Taken}

abbrev pub hello : List ℕ
hello = 7 ∷ 1 ∷ 5 ∷ []

abbrev pub bye : List ℕ
bye = 9 ∷ []

abbrev pub open_socket : Socket
open_socket = record {
  sock = pos 4;
  rd_msec = 2100;
  wr_msec = 2100;
  recv_buffer = new_buffer;
  send_queue = new_buffer;
  rcv_queue = new_buffer;
  use_epoll = true;
  task_deleted = false;
  deleted = false;
}

abbrev three_uses : List Use
three_uses = puts hello ∷ flips 2 ∷ puts bye ∷ []

run-queue_example :
    (b : ByteBuffer) × (run three_uses new_buffer ≡ some b)
    × IsValid b
    × (contents b ≡ queue three_uses (contents new_buffer))
unfolding new_buffer demand
run-queue_example = run-queue three_uses new_buffer new_buffer-IsValid (omega arith)

packet_append-frame_example :
    ((length hello + pack_head_size ≤ trunk_size) × ((q : ByteBuffer) × Packed hello q))
    ⊎ ((trunk_size < length hello + pack_head_size) × (packet_append hello new_buffer ≡ none))
packet_append-frame_example = packet_append-frame hello

send_cmd-Outcome_example :
    (r : Sent) × (send_cmd (some hello) false (room 5) open_socket ≡ some r)
    × Outcome (frame hello) open_socket r
unfolding new_buffer
send_cmd-Outcome_example =
    send_cmd-Outcome hello false (room 5) open_socket (omega arith) (omega arith)
      (record { valid = new_buffer-IsValid; bound = omega arith })

sync-Outcome_example :
    (r : Sent) × (sync (failed eagain) open_socket ≡ some r) × Outcome [] open_socket r
unfolding new_buffer
sync-Outcome_example =
    sync-Outcome (failed eagain) open_socket
      (record { valid = new_buffer-IsValid; bound = omega arith })

abbrev calls : List Call
calls =
    sends hello false (room 5)
    ∷ sends bye true (room 5)
    ∷ syncs (failed eagain)
    ∷ syncs (room 5)
    ∷ []

session-stream_example :
    (t : Session) × (session calls open_socket ≡ some t)
    × IsValid t.socket.send_queue
    × (t.wire ++ contents t.socket.send_queue ≡ contents open_socket.send_queue ++ frames t.cmds)
unfolding new_buffer
session-stream_example =
    session-stream calls open_socket (omega arith) new_buffer-IsValid (omega arith)

two_frames : Assembling (hello ∷ bye ∷ []) (frames (hello ∷ bye ∷ [])) open_socket
unfolding new_buffer
two_frames = record {
  front = record { valid = new_buffer-IsValid; front = refl; one_trunk = refl };
  queue = new_buffer-IsValid;
  stream = refl;
  part = omega arith;
}

receive-Run_example :
    Run (some 3 ∷ none ∷ some 9 ∷ []) (hello ∷ bye ∷ []) (frames (hello ∷ bye ∷ [])) open_socket
unfolding new_buffer
receive-Run_example =
    receive-Run (some 3 ∷ none ∷ some 9 ∷ []) (hello ∷ bye ∷ []) (frames (hello ∷ bye ∷ []))
      open_socket (omega arith) (omega arith) two_frames

abbrev many : List (Option ℕ)
many =
    some 3
    ∷ some 1
    ∷ some 9
    ∷ some 1
    ∷ some 1
    ∷ some 2
    ∷ some 1
    ∷ some 1
    ∷ some 1
    ∷ some 1
    ∷ some 1
    ∷ some 1
    ∷ []

receive-delivers_example :
    (t : Progress) × (receive many (frames (hello ∷ bye ∷ [])) open_socket ≡ some t)
    × (t.wire ≡ [])
    × (contents t.socket.rcv_queue ≡ contents open_socket.rcv_queue ++ frames (hello ∷ bye ∷ []))
unfolding new_buffer pack_head
receive-delivers_example =
    receive-delivers many (hello ∷ bye ∷ []) (frames (hello ∷ bye ∷ [])) open_socket (omega arith)
      (omega arith) (omega arith) (omega arith) two_frames

-- a socket whose queue holds two messages
abbrev pub received : Socket
received = record open_socket {
  rcv_queue = record {
    max_size = trunk_size;
    off_ptr = 0;
    curr_ptr = 12;
    buffer = λ i. get_or (frames (hello ∷ bye ∷ [])) i 0;
  };
}

recv_to_cmd-Taken_example :
    (c : Command) × (recv_to_cmd 65526 received ≡ some c)
    × Taken hello (frames (bye ∷ [])) received c
unfolding pack_head is_invalid
recv_to_cmd-Taken_example =
    recv_to_cmd-Taken 65526 received hello (frames (bye ∷ [])) (omega arith) (omega arith) refl
      (record { ordered = omega arith; within = omega arith }) (omega arith) refl

-- one second, in which nothing comes
abbrev quiet : List Round
quiet =
    record { socket = open_socket; clock = 100500 }
    ∷ record { socket = open_socket; clock = 101200 }
    ∷ []

-- ===== src/Tests/Delivery.antt =====
-- The whole way of two messages.
use ugly_ff.Base.{
  ℕ, ◌≡◌, length, ap, sym, subst, refl, true, false, List, [], ◌∷◌, Option, none, some, arith, All,
  to_int,
}
use ugly_ff.Buffer.{
  new_buffer, put_stack, reserve_stack, put, reserve_dynamic, rd_buf, rd_size, rd_ready, rd_flip,
}
use ugly_ff.Buffer.Laws.{contents, new_buffer-IsValid}
use ugly_ff.Socket.{eagain, is_invalid}
use ugly_ff.Socket.Send.{room, failed, send_cmd, sync}
use ugly_ff.Packet.Frames.{Fair}
use ugly_ff.Packet.{pack_head, packet_append}
use ugly_ff.Socket.Send.Session.{Call, sends, syncs, Session, session, invoke, accepted}
use ugly_ff.Socket.Receive.Run.{Progress, receive}
use ugly_ff.Task.{Task, Heard, okay, terminate_no, listening_recv}
use ugly_ff.Task.Listening.{requests}
use ugly_ff.Delivery.{Clear, Idle, session-messages}
use ugly_ff.Tests.Stream.{hello, bye, open_socket}
use ugly_ff.Tests.Task.{ignore, ignore-Keeps}

abbrev calls : List Call
calls =
    sends hello true (room 5)
    ∷ sends bye true (room 5)
    ∷ syncs (failed eagain)
    ∷ syncs (room 40)
    ∷ []

outcome : Option Session → Session
outcome none = record { wire = []; cmds = []; socket = open_socket }
outcome (some t) = t

abbrev done : Session
done = outcome (session calls open_socket)

done_lem : session calls open_socket ≡ some done
unfolding outcome session invoke send_cmd packet_append put_stack reserve_stack new_buffer pack_head
    put reserve_dynamic rd_buf rd_size sync rd_ready to_int
done_lem = refl

-- all of it went to the kernel
drained : contents done.socket.send_queue ≡ []
unfolding outcome session invoke send_cmd packet_append put_stack reserve_stack new_buffer pack_head
    put reserve_dynamic rd_buf rd_size sync rd_ready rd_flip to_int
drained = refl

both_taken : done.cmds ≡ hello ∷ bye ∷ []
unfolding outcome session invoke accepted send_cmd packet_append put_stack reserve_stack new_buffer
    pack_head put reserve_dynamic rd_buf rd_size sync rd_ready rd_flip to_int
both_taken = refl

twelve_bytes : length done.wire ≡ 12
unfolding outcome session invoke send_cmd packet_append put_stack reserve_stack new_buffer pack_head
    put reserve_dynamic rd_buf rd_size sync rd_ready rd_flip to_int
twelve_bytes = refl

abbrev reads : List (Option ℕ)
reads =
    some 3
    ∷ some 1
    ∷ some 40
    ∷ some 1
    ∷ some 1
    ∷ some 2
    ∷ some 1
    ∷ some 1
    ∷ some 1
    ∷ some 1
    ∷ some 1
    ∷ some 1
    ∷ []

abbrev pub receiver : Task
receiver = record {
  socket = open_socket;
  state = okay;
  buffered = true;
  terminate = terminate_no;
  terminate_wait = false;
  fdsradd = false;
  life_time = 0;
  unique_verified = true;
  check_signals = true;
  ten_min = record { long = 30000; timer = 30000 };
  tick = false;
}

receiver-Idle : Idle 12 receiver.socket
unfolding new_buffer is_invalid
receiver-Idle = record {
  opened = refl;
  front = record { valid = new_buffer-IsValid; front = refl; one_trunk = refl };
  no_part = refl;
  queue = new_buffer-IsValid;
  no_message = refl;
  bound = omega arith;
}

sender-Clear : Clear calls open_socket
unfolding new_buffer
sender-Clear = record {
  queue = new_buffer-IsValid;
  empty = refl;
  bound = omega arith;
  sendable = omega arith;
}

both-Fair : All Fair done.cmds
both-Fair = subst (All Fair) (sym both_taken) (omega arith)

session-messages_example :
    (p : Progress) × (receive reads done.wire receiver.socket ≡ some p)
    × ((r : Heard) × (listening_recv ignore 3 4 false (record receiver { socket = p.socket })
          ≡ some (true, r))
        × (r.messages ≡ requests 3 done.cmds))
session-messages_example =
    session-messages ignore 3 4 calls open_socket reads receiver ignore-Keeps sender-Clear done_lem
      drained both-Fair receiver-Idle (omega arith) (omega (arith, twelve_bytes))
      (omega (arith, ap length both_taken))

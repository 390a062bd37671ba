-- ===== src/Tests/Login.antt =====
-- A startup request on its way to the management server, and the entries of the servers.
use ugly_ff.Base.{
  ℕ, zero, suc, ◌≡◌, ◌↔◌, length, subst, sym, refl, true, List, [], ◌∷◌, Option, none, some, arith,
  All, to_int, if◌then◌else◌,
}
use ugly_ff.Buffer.{
  new_buffer, put_stack, reserve_stack, put, reserve_dynamic, rd_buf, rd_size, rd_ready, rd_flip,
}
use ugly_ff.Buffer.Laws.{contents, new_buffer-IsValid}
use ugly_ff.Socket.{is_invalid}
use ugly_ff.Socket.Send.{room, send_cmd, sync}
use ugly_ff.Packet.Frames.{Fair, frames}
use ugly_ff.Packet.{pack_head, packet_append}
use ugly_ff.Socket.Send.Session.{Call, sends, syncs, Session, session, invoke, accepted}
use ugly_ff.Socket.Receive.Run.{Progress, receive}
use ugly_ff.TaskPool.Rounds.{success, failure}
use ugly_ff.Server.{ServerTask, is_startup_request, verify_conn}
use ugly_ff.Server.Login.{session-verified}
use ugly_ff.Delivery.{Clear, Idle}
use ugly_ff.Tests.Stream.{hello, open_socket}
use ugly_ff.Commands.{
  ServerEntry, startup_request, null_cmd, word_bytes, zero_bytes, c_string, entry_eq, entry_hash,
}
use ugly_ff.Commands.Entries.{SameEntry, entry_eq-SameEntry}
use ugly_ff.Tests.Server.{asking}

abbrev startup : List ℕ
startup = startup_request 21 (zero_bytes 16)

abbrev logging_in : List Call
logging_in = sends startup true (room 5) ∷ sends hello true (room 5) ∷ syncs (room 40) ∷ []

abbrev went : Session
went = record {
  wire = frames (startup ∷ hello ∷ []);
  cmds = startup ∷ hello ∷ [];
  socket = open_socket;
}

outcome : Option Session → Session
outcome none = went
outcome (some t) = t

abbrev logged_in : Session
logged_in = outcome (session logging_in open_socket)

logged_in_lem : session logging_in open_socket ≡ some logged_in
unfolding startup_request zero_bytes null_cmd word_bytes outcome session invoke send_cmd
    packet_append put_stack reserve_stack new_buffer pack_head put reserve_dynamic rd_buf rd_size
    sync rd_ready to_int
logged_in_lem = refl

drained : contents logged_in.socket.send_queue ≡ []
unfolding startup_request zero_bytes null_cmd word_bytes outcome session invoke send_cmd
    packet_append put_stack reserve_stack new_buffer pack_head put reserve_dynamic rd_buf rd_size
    sync rd_ready rd_flip to_int
drained = refl

both_taken : logged_in.cmds ≡ startup ∷ hello ∷ []
unfolding startup_request zero_bytes null_cmd word_bytes outcome session invoke accepted send_cmd
    packet_append put_stack reserve_stack new_buffer pack_head put reserve_dynamic rd_buf rd_size
    sync rd_ready rd_flip to_int
both_taken = refl

thirty_one_bytes : length logged_in.wire ≡ 31
unfolding startup_request zero_bytes null_cmd word_bytes outcome session invoke send_cmd
    packet_append put_stack reserve_stack new_buffer pack_head put reserve_dynamic rd_buf rd_size
    sync rd_ready rd_flip to_int
thirty_one_bytes = refl

-- the bytes come one at a time
abbrev singly : ℕ → List (Option ℕ)
singly zero = []
singly (suc n) = some 1 ∷ singly n

abbrev unasked : ServerTask
unasked = record asking { task = record asking.task { socket = open_socket } }

unasked-Idle : Idle 31 open_socket
unfolding new_buffer is_invalid
unasked-Idle = record {
  opened = refl;
  front = record { valid = new_buffer-IsValid; front = refl; one_trunk = refl };
  no_part = refl;
  queue = new_buffer-IsValid;
  no_message = refl;
  bound = omega arith;
}

logging_in-Clear : Clear logging_in open_socket
unfolding startup_request zero_bytes null_cmd word_bytes new_buffer
logging_in-Clear = record {
  queue = new_buffer-IsValid;
  empty = refl;
  bound = omega arith;
  sendable = omega arith;
}

session-verified_example :
    (p : Progress) × (receive (singly 31) logged_in.wire open_socket ≡ some p)
    × ((r : ServerTask) × (verify_conn 0
            (record unasked { task = record unasked.task { socket = p.socket } })
          ≡ some (if is_startup_request 0 startup then success else failure, r))
        × (contents r.task.socket.rcv_queue ≡ frames (hello ∷ [])))
unfolding startup_request zero_bytes null_cmd word_bytes new_buffer
session-verified_example =
    session-verified 0 logging_in open_socket (singly 31) unasked logging_in-Clear logged_in_lem
      drained both_taken (subst (All Fair) (sym both_taken) (omega arith)) unasked-Idle refl
      (omega arith) (omega arith) (omega (arith, thirty_one_bytes))

abbrev zone_server : ServerEntry
zone_server = record {
  server_id = 3;
  server_type = 21;
  ip = 49 ∷ 46 ∷ 0 ∷ 7 ∷ [];
  port = 8090;
  state = 0;
}

entry_eq-SameEntry_example :
    ((entry_eq zone_server (record zone_server { ip = 49 ∷ 46 ∷ 0 ∷ [] }) ≡ some true)
      ↔ SameEntry zone_server
          (record zone_server { ip = 49 ∷ 46 ∷ 0 ∷ [] })
          (49 ∷ 46 ∷ [])
          (49 ∷ 46 ∷ []))
    × (entry_eq zone_server (record zone_server { ip = 49 ∷ 46 ∷ 0 ∷ [] }) ≡ some true
        → entry_hash (λ w. w) zone_server
          ≡ entry_hash (λ w. w) (record zone_server { ip = 49 ∷ 46 ∷ 0 ∷ [] }))
unfolding c_string
entry_eq-SameEntry_example =
    entry_eq-SameEntry zone_server (record zone_server { ip = 49 ∷ 46 ∷ 0 ∷ [] }) (49 ∷ 46 ∷ [])
      (49 ∷ 46 ∷ []) (λ w. w) refl refl

-- ===== src/Tests/Server.antt =====
-- The management server's theorems at concrete servers.
use ugly_ff.Base.{
  ℕ, ◌+◌, ◌≡◌, refl, Bool, true, false, List, [], ◌∷◌, none, if◌then◌else◌, ◌==◌, get_or,
}
use ugly_ff.Buffer.{trunk_size}
use ugly_ff.Packet.Frames.{frames}
use ugly_ff.Server.{ServerTask}
use ugly_ff.Server.Manager.{Methods, Manager, new_manager, find, broadcast, broadcast_by_type}
use ugly_ff.Server.Manager.Registry.{Reg, enters, leaves, Distinct, run, holders, run-registry}
use ugly_ff.Server.Manager.Single.{Single, server_methods, run-Single}
use ugly_ff.Server.Manager.Broadcast.{reached, all_sent, broadcast-reached}
use ugly_ff.Tests.Stream.{hello, open_socket}
use ugly_ff.Tests.Delivery.{receiver}

-- a startup request, and a message behind it
abbrev pub startup : List ℕ
startup = 1 ∷ 1 ∷ 9 ∷ []

abbrev pub asking : ServerTask
asking = record {
  task = record receiver {
    socket = record open_socket {
      rcv_queue = record {
        max_size = trunk_size;
        off_ptr = 0;
        curr_ptr = 14;
        buffer = λ i. get_or (frames (startup ∷ hello ∷ [])) i 0;
      };
    };
  };
  server_id = 0;
  server_type = 0;
  port = 0;
  online_num = 0;
  sequence_ok = false;
  has_notify_me = false;
  has_process_sequence = false;
  ses = [];
}

-- servers that are numbers: the number is the id, and each command raises it by 100
abbrev plain_methods : Methods ℕ
plain_methods = record {
  get_id = λ s. s;
  get_type = λ s. if s == 5 then 22 else 1;
  get_online_num = λ s. 3;
  send_cmd = λ cmd s. (true, s + 100);
  response_other = λ id s. s;
}

abbrev numbered : ℕ → ℕ
numbered p = p + 4

abbrev comings : List Reg
comings = enters 1 ∷ enters 2 ∷ enters 1 ∷ leaves 1 ∷ []

run-registry_example :
    Distinct (run plain_methods comings (new_manager numbered)).unique_container
    × (find 6 (run plain_methods comings (new_manager numbered)).unique_container
        ≡ holders plain_methods comings numbered (λ i. none) 6)
run-registry_example = run-registry plain_methods comings numbered 6

abbrev mute : List ℕ → ServerTask → Bool × ServerTask
mute cmd s = (true, s)

run-Single_example :
    Single (run (server_methods mute) comings (new_manager (λ p. asking))).unique_container
run-Single_example = run-Single mute comings (λ p. asking)

abbrev two_servers : Manager ℕ
two_servers = record { container = 1 ∷ 2 ∷ []; unique_container = []; store = numbered }

broadcast-reached_example :
    ((broadcast plain_methods hello two_servers).1.store 2
      ≡ reached plain_methods (λ s. true) hello two_servers.container two_servers.store 2)
    × ((broadcast plain_methods hello two_servers).0
        ≡ all_sent plain_methods (λ s. true) hello two_servers.container two_servers.store)
    × ((broadcast_by_type plain_methods 22 hello two_servers).1.store 2
        ≡ reached plain_methods
            (λ s. plain_methods.get_type s == 22)
            hello
            two_servers.container
            two_servers.store
            2)
    × ((broadcast_by_type plain_methods 22 hello two_servers).0
        ≡ all_sent plain_methods
            (λ s. plain_methods.get_type s == 22)
            hello
            two_servers.container
            two_servers.store)
broadcast-reached_example =
    broadcast-reached plain_methods 22 hello two_servers 2 (refl, (refl, tt))

-- ===== src/Tests/Errors.antt =====
-- Streams that are not well formed.
use ugly_ff.Base.{ℕ, ◌≡◌, refl, List, [], ◌∷◌, ◌++◌, some, get_or, arith}
use ugly_ff.Buffer.{trunk_size}
use ugly_ff.Buffer.Laws.{contents}
use ugly_ff.Packet.{head_len}
use ugly_ff.Socket.{Socket}
use ugly_ff.Socket.Receive.{Received, recv_data}
use ugly_ff.Socket.Receive.Errors.{recv_data-oversized}
use ugly_ff.Tests.Stream.{open_socket}

-- a socket that has received the `n` bytes
abbrev holds : ℕ → List ℕ → Socket
holds n bytes = record open_socket {
  recv_buffer = record {
    max_size = trunk_size;
    off_ptr = 0;
    curr_ptr = n;
    buffer = λ i. get_or bytes i 0;
  };
}

-- a head that says 65535, and one byte of the message
abbrev too_long : Socket
too_long = holds 5 (0xAA ∷ 0xDD ∷ 255 ∷ 255 ∷ 7 ∷ [])

recv_data-oversized_example :
    (r : Received) × (recv_data (some 9) (1 ∷ 2 ∷ []) too_long ≡ some r)
    × (contents r.socket.recv_buffer ++ r.wire ≡ 1 ∷ 2 ∷ [])
    × (r.socket.rcv_queue ≡ too_long.rcv_queue)
    × (r.socket.sock ≡ too_long.sock)
unfolding head_len
recv_data-oversized_example =
    recv_data-oversized (some 9) (1 ∷ 2 ∷ []) too_long
      (record {
        valid = record { ordered = omega arith; within = omega arith };
        front = refl;
        one_trunk = refl;
      })
      (omega arith) (omega arith)

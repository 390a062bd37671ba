-- ===== src/Socket/Receive/Take.antt =====
-- recvToCmd on a queue of whole frames.
use ugly_ff.Base.{
  ℕ, ◌+◌, ◌≤◌, ◌<◌, ◌^◌, ◌≡◌, refl, ap, ◌∙◌, true, false, List, [], ◌++◌, some, arith, ltb, lt→ltb,
  length, length-append, drop, drop-length, pos, to_int, to_int-small, add64, minus_one,
}
use ugly_ff.Buffer.{rd_size, rd_flip}
use ugly_ff.Buffer.Laws.{IsValid, contents, rd_size-length}
use ugly_ff.Buffer.Flip.{rd_flip-drop, Flipped}
use ugly_ff.Packet.{head_len, pack_head_size, packet_unpack}
use ugly_ff.Packet.Frames.{frame, Fair, length-frame, head_len-frame, packet_unpack-frame}
use ugly_ff.Socket.{Socket, is_invalid}
use ugly_ff.Socket.Receive.{Command, recv_to_cmd}

-- what taking the command `cmd` off the queue of `s`, with `rest` behind it, comes to
pub record Taken (cmd rest : List ℕ) (s : Socket) (c : Command) : Type 0 where
  pub ret : c.ret ≡ pos (length cmd)
  pub same_cmd : c.cmd ≡ cmd
  pub valid : IsValid c.socket.rcv_queue
  pub holds : contents c.socket.rcv_queue ≡ rest
  pub same_max : c.socket.rcv_queue.max_size ≡ s.rcv_queue.max_size
  pub same_sock : c.socket.sock ≡ s.sock

unpacked :
    (room : ℕ) (s : Socket) (cmd : List ℕ)
    → is_invalid s.sock ≡ false
    → pack_head_size < rd_size s.rcv_queue
    → head_len s.rcv_queue < rd_size s.rcv_queue
    → packet_unpack s.rcv_queue (head_len s.rcv_queue) room ≡ some cmd
    → recv_to_cmd room s
      ≡ some (record {
        ret = to_int (head_len s.rcv_queue);
        cmd = cmd;
        socket = record s {
          rcv_queue = rd_flip (add64 (head_len s.rcv_queue) pack_head_size) s.rcv_queue;
        };
      })
unfolding recv_to_cmd
unpacked room s cmd i h l e = rw (i, lt→ltb _ _ h, lt→ltb _ _ l, e)

-- On an open socket whose queue (valid, and far from the end of 64 bits) begins with the frame of a
-- command of 1 to 65526 bytes, for which the caller's block has room, recvToCmd returns the
-- command's length, copies exactly the command into the block, and leaves the rest of the queue.
pub recv_to_cmd-Taken :
    (room : ℕ) (s : Socket) (cmd rest : List ℕ)
    → Fair cmd
    → length cmd ≤ room
    → is_invalid s.sock ≡ false
    → IsValid s.rcv_queue
    → s.rcv_queue.max_size < 2 ^ 62
    → contents s.rcv_queue ≡ frame cmd ++ rest
    → (c : Command) × (recv_to_cmd room s ≡ some c) × Taken cmd rest s c
recv_to_cmd-Taken room s cmd rest fair enough i v b e = (
  _,
  unpacked room s cmd i (omega (arith, size, fair.0)) (omega (arith, size, len)) (
      ap (λ n. packet_unpack s.rcv_queue n room) len
      ∙ packet_unpack-frame s.rcv_queue cmd rest room v enough e),
  record {
    ret = ap to_int len ∙ to_int-small (length cmd) (omega (arith, fair.1));
    same_cmd = refl;
    valid = flipped.valid;
    holds = flipped.holds ∙ ap (drop n) e ∙ past;
    same_max = flipped.same_max;
    same_sock = refl;
  },
)
  where
    n : ℕ
    n = add64 (head_len s.rcv_queue) pack_head_size

    len : head_len s.rcv_queue ≡ length cmd
    len = (head_len-frame s.rcv_queue cmd rest fair.1 e).2

    size : rd_size s.rcv_queue ≡ length cmd + 4 + length rest
    size = omega (
      arith,
      rd_size-length s.rcv_queue v (omega arith),
      ap length e,
      length-append (frame cmd) rest,
      length-frame cmd,
    )

    total : n ≡ length (frame cmd)
    total = omega (arith, len, length-frame cmd, fair.1)

    flipped : Flipped n s.rcv_queue (rd_flip n s.rcv_queue)
    flipped = rd_flip-drop n s.rcv_queue v (omega (arith, total, length-frame cmd, fair.1))

    past : drop n (frame cmd ++ rest) ≡ rest
    past = ap (λ k. drop k (frame cmd ++ rest)) total ∙ drop-length (frame cmd) rest

-- From a queue of at most a head's size nothing is taken.
pub recv_to_cmd-none :
    (room : ℕ) (s : Socket)
    → is_invalid s.sock ≡ false
    → rd_size s.rcv_queue ≤ pack_head_size
    → recv_to_cmd room s ≡ some (record { ret = pos 0; cmd = []; socket = s })
unfolding recv_to_cmd
recv_to_cmd-none room s i h =
    let few : ltb pack_head_size (rd_size s.rcv_queue) ≡ false = ground arith in rw (i, few)

-- On a socket that was closed, recvToCmd returns -1 whatever the queue holds.
pub recv_to_cmd-closed :
    (room : ℕ) (s : Socket)
    → is_invalid s.sock ≡ true
    → recv_to_cmd room s ≡ some (record { ret = minus_one; cmd = []; socket = s })
unfolding recv_to_cmd
recv_to_cmd-closed room s i = rw i

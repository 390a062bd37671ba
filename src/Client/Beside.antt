-- ===== src/Client/Beside.antt =====
-- include/zSocket.cpp: what sendCmd and recvToCmd leave alone.
use ugly_ff.Base.{ℕ, ◌≡◌, refl, true, false, List, [], ◌∷◌, Option, none, some, ltb}
use ugly_ff.Buffer.{ByteBuffer, new_buffer, rd_size, put, rd_buf}
use ugly_ff.Packet.{packet_append, ◌>>=◌}
use ugly_ff.Socket.{Socket, is_invalid, eagain, ewouldblock, eintr, other}
use ugly_ff.Socket.Send.{Sending, room, failed, Sent, send_cmd, send_raw, enqueue, with_result}
use ugly_ff.Socket.Receive.{recv_to_cmd}
use ugly_ff.Packet.Results.{Post, no_result, result, Post-bind, Post-if}

-- recvToCmd leaves what waits for sending alone.
pub recv_to_cmd-send_queue :
    (n : ℕ) (s : Socket) → Post (λ c. c.socket.send_queue ≡ s.send_queue) (recv_to_cmd n s)
unfolding recv_to_cmd
recv_to_cmd-send_queue n s =
    Post-if (is_invalid s.sock) _ _ (result refl)
      (Post-if _ _ _ (Post-bind _ _ (λ b. result refl)) (result refl))

-- sendCmd leaves the queue of received messages alone, and the descriptor too unless it fails.
pub record Beside (s : Socket) (r : Sent) : Type 0 where
  pub rcv_queue : r.socket.rcv_queue ≡ s.rcv_queue
  pub sock : r.ok ≡ true → r.socket.sock ≡ s.sock

pub enqueued-Beside :
    (raw : ByteBuffer) (s : Socket) (wire : List ℕ)
    → Post (Beside s) (with_result true wire (enqueue raw s))
unfolding enqueue
enqueued-Beside raw s wire = queued (put (rd_buf raw (rd_size raw)) s.send_queue)
  where
    queued :
        (o : Option ByteBuffer)
        → Post
            (Beside s)
            (with_result true wire (o >>= λ queue. some (record s { send_queue = queue })))
    queued none = no_result
    queued (some q) = result record { rcv_queue = refl; sock = λ h. refl }

pub send_raw-Beside :
    (raw : ByteBuffer) (sending : Sending) (s : Socket) → Post (Beside s) (send_raw raw sending s)
unfolding send_raw
send_raw-Beside raw (room k) s =
    Post-if _ _ _ (enqueued-Beside _ s _) (result record { rcv_queue = refl; sock = λ h. refl })
send_raw-Beside raw (failed other) s = result record { rcv_queue = refl; sock = λ h. cc }
send_raw-Beside raw (failed eagain) s = enqueued-Beside raw s []
send_raw-Beside raw (failed ewouldblock) s = enqueued-Beside raw s []
send_raw-Beside raw (failed eintr) s = enqueued-Beside raw s []

pub send_cmd-Beside :
    (cmd : List ℕ) (sending : Sending) (s : Socket)
    → Post (Beside s) (send_cmd (some cmd) false sending s)
unfolding send_cmd
send_cmd-Beside [] sending s = result record { rcv_queue = refl; sock = λ h. refl }
send_cmd-Beside (x ∷ cmd) sending s = Post-bind (packet_append (x ∷ cmd) new_buffer) _ (λ raw.
    Post-if (ltb 0 (rd_size s.send_queue)) _ _ (enqueued-Beside raw s [])
      (send_raw-Beside raw sending s))

-- ===== src/Socket/Receive/Run.antt =====
-- Calls of RecvData one after the other, as the epoll thread makes them.
use ugly_ff.Base.{
  ℕ, ◌+◌, ◌-◌, ◌*◌, ◌≤◌, ◌<◌, ◌^◌, ◌≡◌, refl, ap, sym, ◌∙◌, List, [], ◌∷◌, ◌++◌, append_assoc,
  append-nil, Option, none, some, arith, length, length-append, length-drop, nil_of_length, min,
  All, subst,
}
use ugly_ff.Buffer.{trunk_size}
use ugly_ff.Buffer.Laws.{contents}
use ugly_ff.Packet.{◌>>=◌}
use ugly_ff.Packet.Frames.{frame, frames, frames-append, Fair, length-frame}
use ugly_ff.Socket.{Socket}
use ugly_ff.Socket.Receive.{Received, recv_data, recv_byte}
use ugly_ff.Socket.Receive.Stream.{Assembling}
use ugly_ff.Socket.Receive.Call.{Called, recv_data-Called}

-- What the kernel still holds, and the socket, after the calls. An entry `k` is one call: recv()
-- fails (`none`) or hands over at most `k` bytes.
pub record Progress : Type 0 where
  pub wire : List ℕ
  pub socket : Socket

unfoldable pub receive : List (Option ℕ) → List ℕ → Socket → Option Progress
receive [] wire s = some (record { wire = wire; socket = s })
receive (k ∷ ks) wire s = do r ← recv_data k wire s; receive ks r.wire r.socket

then_receive :
    (k : Option ℕ) (ks : List (Option ℕ)) (wire : List ℕ) (s : Socket) {r : Received}
    → recv_data k wire s ≡ some r
    → receive (k ∷ ks) wire s ≡ receive ks r.wire r.socket
unfolding receive
then_receive k ks wire s e = rw e

pub All-split : (xs ys zs : List (List ℕ)) → xs ≡ ys ++ zs → All Fair xs → All Fair zs
All-split xs [] zs e h = subst (All Fair) e h
All-split [] (y ∷ ys) zs e h = absurd (cc)
All-split (x ∷ xs) (y ∷ ys) zs e h = All-split xs ys zs (cc) h.1

-- where the calls have got to: `done` is in the queue, `rest` is to come
pub record Run (ks : List (Option ℕ)) (cmds : List (List ℕ)) (wire : List ℕ) (s : Socket)
    : Type 0 where
  pub result : Progress
  pub ran : receive ks wire s ≡ some result
  pub done : List (List ℕ)
  pub rest : List (List ℕ)
  pub split : cmds ≡ done ++ rest
  pub next : Assembling rest result.wire result.socket
  pub holds : contents result.socket.rcv_queue ≡ contents s.rcv_queue ++ frames done
  pub bound : result.socket.rcv_queue.max_size ≤ s.rcv_queue.max_size + 2 * trunk_size * length ks
  pub same_sock : result.socket.sock ≡ s.sock

-- However the kernel cuts up a stream of frames of which less than one is in the buffer, with
-- failing calls in between, RecvData never faults, never closes the socket, and puts complete
-- commands into the queue, in the order of the stream and each of them once. (A command has 1 to
-- MAX_DATASIZE bytes, and the queue is far from the end of 64 bits.)
pub receive-Run :
    (ks : List (Option ℕ)) (cmds : List (List ℕ)) (wire : List ℕ) (s : Socket)
    → All Fair cmds
    → s.rcv_queue.max_size + 2 * trunk_size * length ks < 2 ^ 62
    → Assembling cmds wire s
    → Run ks cmds wire s
unfolding receive
receive-Run [] cmds wire s fair b a = record {
  result = record { wire = wire; socket = s };
  ran = refl;
  done = [];
  rest = cmds;
  split = refl;
  next = a;
  holds = sym (append-nil (contents s.rcv_queue));
  bound = omega arith;
  same_sock = refl;
}
receive-Run (k ∷ ks) cmds wire s fair b a =
    let (r, c) = recv_data-Called k cmds wire s fair (omega arith) a in
    let adv = c.advance in
    let later =
      receive-Run ks adv.rest r.wire r.socket (All-split cmds adv.done adv.rest adv.split fair)
        (omega (arith, adv.bound)) adv.next in
    record {
      result = later.result;
      ran = then_receive k ks wire s c.done ∙ later.ran;
      done = adv.done ++ later.done;
      rest = later.rest;
      split =
          adv.split
          ∙ ap (λ xs. adv.done ++ xs) later.split
          ∙ sym (append_assoc adv.done later.done later.rest);
      next = later.next;
      holds =
          later.holds
          ∙ ap (λ xs. xs ++ frames later.done) adv.holds
          ∙ append_assoc (contents s.rcv_queue) (frames adv.done) (frames later.done)
          ∙ ap (λ xs. contents s.rcv_queue ++ xs) (sym (frames-append adv.done later.done));
      bound = omega (arith, adv.bound, later.bound);
      same_sock = later.same_sock ∙ adv.same_sock;
    }

-- every call is handed something
abbrev pub Busy : Option ℕ → Type 0
Busy none = ⊥
Busy (some k) = 0 < k

call_shrinks :
    (k : Option ℕ) (cmds : List (List ℕ)) (wire : List ℕ) (s : Socket) {r : Received}
    → Busy k
    → Called k cmds wire s r
    → length r.wire ≤ length wire - 1
unfolding recv_byte
call_shrinks none cmds wire s b c = absurd b
call_shrinks (some k) cmds wire s b c =
    omega (arith, ap length c.same_wire, length-drop (min k c.ask) wire, c.asks)

abbrev wire_left : Option Progress → List ℕ
wire_left none = []
wire_left (some t) = t.wire

-- Calls that are all handed something, at least as many as there are bytes, empty the kernel.
receive-drains :
    (ks : List (Option ℕ)) (cmds : List (List ℕ)) (wire : List ℕ) (s : Socket) {t : Progress}
    → All Fair cmds
    → All Busy ks
    → length wire ≤ length ks
    → s.rcv_queue.max_size + 2 * trunk_size * length ks < 2 ^ 62
    → Assembling cmds wire s
    → receive ks wire s ≡ some t
    → t.wire ≡ []
unfolding receive
receive-drains [] cmds wire s fair busy l b a e =
    sym (ap wire_left e) ∙ nil_of_length wire (omega (arith, l))
receive-drains (k ∷ ks) cmds wire s fair busy l b a e =
    let (r, c) = recv_data-Called k cmds wire s fair (omega arith) a in
    let adv = c.advance in
    receive-drains ks adv.rest r.wire r.socket (All-split cmds adv.done adv.rest adv.split fair)
      busy.1 (omega (arith, call_shrinks k cmds wire s busy.0 c)) (omega (arith, adv.bound))
      adv.next (sym (then_receive k ks wire s c.done) ∙ e)

nothing_left : (rest : List (List ℕ)) (s : Socket) → Assembling rest [] s → rest ≡ []
nothing_left [] s a = refl
nothing_left (cmd ∷ rest) s a = absurd (
    omega (
      arith,
      a.part,
      ap length a.stream,
      ap length (sym (append-nil (contents s.recv_buffer))),
      length-append (frame cmd) (frames rest),
      length-frame cmd,
    ))

-- However the kernel cuts up the frames of commands of 1 to MAX_DATASIZE bytes, at least as many
-- calls of RecvData as there are bytes, each of which recv() hands something, deliver them all:
-- no call faults, the kernel is left empty, and the queue has gained exactly these frames. (The
-- queue is far from the end of 64 bits.)
pub receive-delivers :
    (ks : List (Option ℕ)) (cmds : List (List ℕ)) (wire : List ℕ) (s : Socket)
    → All Fair cmds
    → All Busy ks
    → length wire ≤ length ks
    → s.rcv_queue.max_size + 2 * trunk_size * length ks < 2 ^ 62
    → Assembling cmds wire s
    → (t : Progress) × (receive ks wire s ≡ some t)
      × (t.wire ≡ [])
      × (contents t.socket.rcv_queue ≡ contents s.rcv_queue ++ frames cmds)
receive-delivers ks cmds wire s fair busy l b a =
    let run = receive-Run ks cmds wire s fair b a in
    let empty = receive-drains ks cmds wire s fair busy l b a run.ran in
    let over : run.rest ≡ [] =
      nothing_left run.rest run.result.socket
        (subst (λ w. Assembling run.rest w run.result.socket) empty run.next) in
    (
      run.result,
      run.ran,
      empty,
      run.holds
          ∙ ap (λ xs. contents s.rcv_queue ++ frames xs)
              (sym (run.split ∙ ap (λ xs. run.done ++ xs) over ∙ append-nil run.done)),
    )

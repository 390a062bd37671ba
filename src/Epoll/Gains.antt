-- ===== src/Epoll/Gains.antt =====
-- What the calls of RecvData have added to one socket's queue.
use ugly_ff.Base.{
  ℕ, suc, ◌+◌, ◌*◌, ◌≤◌, ◌≡◌, refl, ap, sym, ◌∙◌, List, [], ◌++◌, append_assoc, append-nil, arith,
}
use ugly_ff.Buffer.{trunk_size}
use ugly_ff.Buffer.Laws.{contents}
use ugly_ff.Packet.Frames.{frames, frames-append}
use ugly_ff.Socket.{Socket, disconnect}
use ugly_ff.Socket.Receive.{Received}
use ugly_ff.Socket.Receive.Stream.{Assembling, Advance}

-- What a socket has gained: the commands `done` are in its queue, and `rest` is to come.
pub record Fed (cmds : List (List ℕ)) (s : Socket) (wire : List ℕ) (t : Socket) (calls : ℕ)
    : Type 0 where
  pub done : List (List ℕ)
  pub rest : List (List ℕ)
  pub split : cmds ≡ done ++ rest
  pub next : Assembling rest wire t
  pub holds : contents t.rcv_queue ≡ contents s.rcv_queue ++ frames done
  pub bound : t.rcv_queue.max_size ≤ s.rcv_queue.max_size + 2 * trunk_size * calls

pub Fed-stays :
    (cmds : List (List ℕ)) (wire : List ℕ) (s : Socket) (n : ℕ)
    → Assembling cmds wire s
    → Fed cmds s wire s n
Fed-stays cmds wire s n a = record {
  done = [];
  rest = cmds;
  split = refl;
  next = a;
  holds = sym (append-nil (contents s.rcv_queue));
  bound = omega arith;
}

pub Fed-then :
    {cmds : List (List ℕ)} {s t u : Socket} {w x : List ℕ} {n : ℕ}
    → (f : Fed cmds s w t 1) → Fed f.rest t x u n
    → Fed cmds s x u (suc n)
Fed-then {cmds} {s} f g = record {
  done = f.done ++ g.done;
  rest = g.rest;
  split = f.split ∙ ap (λ xs. f.done ++ xs) g.split ∙ sym (append_assoc f.done g.done g.rest);
  next = g.next;
  holds =
      g.holds
      ∙ ap (λ xs. xs ++ frames g.done) f.holds
      ∙ append_assoc (contents s.rcv_queue) (frames f.done) (frames g.done)
      ∙ ap (λ xs. contents s.rcv_queue ++ xs) (sym (frames-append f.done g.done));
  bound = omega (arith, f.bound, g.bound);
}

pub Advance-Fed :
    {cmds : List (List ℕ)} {s : Socket} {r : Received}
    → Advance cmds s r
    → Fed cmds s r.wire r.socket 1
Advance-Fed a = record {
  done = a.done;
  rest = a.rest;
  split = a.split;
  next = a.next;
  holds = a.holds;
  bound = omega (arith, a.bound);
}

-- Closing a socket leaves its buffers alone.
pub Fed-disconnect :
    {cmds : List (List ℕ)} {s t : Socket} {w : List ℕ} {n : ℕ}
    → Fed cmds s w t n
    → Fed cmds s w (disconnect t) n
unfolding disconnect
Fed-disconnect f = record {
  done = f.done;
  rest = f.rest;
  split = f.split;
  next = record {
    front = f.next.front;
    queue = f.next.queue;
    stream = f.next.stream;
    part = f.next.part;
  };
  holds = f.holds;
  bound = f.bound;
}

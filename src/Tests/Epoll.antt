-- ===== src/Tests/Epoll.antt =====
-- The epoll thread's theorems on two sockets.
use ugly_ff.Base.{
  ℕ, ◌≡◌, refl, false, Bool-cases, List, [], ◌∷◌, none, some, if◌then◌else◌, ◌==◌, length, All,
  arith, inl, inr,
}
use ugly_ff.Buffer.{new_buffer}
use ugly_ff.Buffer.Laws.{new_buffer-IsValid}
use ugly_ff.Packet.Frames.{frames, Fair}
use ugly_ff.Socket.{eagain, other}
use ugly_ff.Epoll.{mask_in, mask_hup, Event, Net, handle_all}
use ugly_ff.Epoll.Gains.{Fed}
use ugly_ff.Epoll.Streams.{Streams, handle_all-Fed}
use ugly_ff.Delivery.{nothing-Partial}
use ugly_ff.Tests.Stream.{hello, open_socket}

-- socket 1 is sent one message, the others nothing
abbrev sent_to : ℕ → List (List ℕ)
sent_to p = if p == 1 then hello ∷ [] else []

abbrev net : Net
net = record { sockets = λ p. open_socket; wires = λ p. frames (sent_to p); terminated = false }

abbrev happenings : List Event
happenings =
    record { events = mask_in; ptr = some 1; hands = some 3; errno = eagain }
    ∷ record { events = mask_hup; ptr = some 2; hands = none; errno = other }
    ∷ record { events = mask_in; ptr = some 1; hands = some 9; errno = other }
    ∷ []

sent_to-Fair : (p : ℕ) → All Fair (sent_to p)
sent_to-Fair p = elim (Bool-cases (p == 1)) [ inl y ↦ rw y (omega arith) | inr n ↦ rw n tt ]

net-Streams : Streams sent_to net 3
unfolding new_buffer
net-Streams = record {
  fair = sent_to-Fair;
  bound = λ p. omega arith;
  assembling = λ p. record {
    front = record { valid = new_buffer-IsValid; front = refl; one_trunk = refl };
    queue = new_buffer-IsValid;
    stream = refl;
    part = nothing-Partial (sent_to p) [] (sent_to-Fair p) refl;
  };
}

handle_all-Fed_example :
    (m : Net) × (handle_all happenings net ≡ some m)
    × Fed (sent_to 1) (net.sockets 1) (m.wires 1) (m.sockets 1) (length happenings)
handle_all-Fed_example = handle_all-Fed happenings sent_to net 1 net-Streams

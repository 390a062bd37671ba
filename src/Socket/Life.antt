-- ===== src/Socket/Life.antt =====
-- WaitRecv and WaitSend with a timeout: they come back, and what their result says.
use ugly_ff.Base.{ℕ, ◌≤◌, ◌<◌, ◌≡◌, ◌⊎◌, true, List, ◌∷◌, sub64, ℤ, pos, minus_one, to_int}
use ugly_ff.Buffer.{rd_size}
use ugly_ff.Socket.{is_invalid, Round, span}

-- a round in which `P` holds
pub data Some (P : Round → Type 0) : List Round → Type 0 where
  now : {r : Round} {rs : List Round} → P r → Some P (r ∷ rs)
  later : {r : Round} {rs : List Round} → Some P rs → Some P (r ∷ rs)

-- The time, `timeout` seconds in milliseconds modulo 2^32, is over in this round.
abbrev pub Late : ℕ → ℕ → Round → Type 0
Late timeout enter r = span timeout ≤ sub64 r.clock enter

-- what the result of WaitRecv says of the rounds
pub data RecvSays (timeout enter : ℕ) (rs : List Round) : ℤ → Type 0 where
  arrived :
      (r : Round)
      → 0 < rd_size r.socket.rcv_queue
      → Some (λ q. q ≡ r) rs
      → RecvSays timeout enter rs (to_int (rd_size r.socket.rcv_queue))
  closed : Some (λ q. is_invalid q.socket.sock ≡ true) rs → RecvSays timeout enter rs minus_one
  timed_out : Some (Late timeout enter) rs → RecvSays timeout enter rs (pos 0)

-- what the result of WaitSend says of the rounds
pub data SendSays (timeout enter : ℕ) (rs : List Round) : ℤ → Type 0 where
  emptied : Some (λ q. rd_size q.socket.send_queue ≡ 0) rs → SendSays timeout enter rs (pos 1)
  gone :
      Some (λ q. (is_invalid q.socket.sock ≡ true) ⊎ Late timeout enter q) rs
      → SendSays timeout enter rs minus_one

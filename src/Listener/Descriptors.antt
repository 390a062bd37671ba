-- ===== src/Listener/Descriptors.antt =====
-- include/zTCPServer.cpp: no descriptor of the listening socket is leaked or closed twice; and what a
-- failure of socket() does.
use ugly_ff.Base.{
  is_minus_one, ℕ, ◌≡◌, refl, sym, ap, ◌∙◌, Bool, true, false, List, [], ◌∷◌, ◌++◌, append-nil,
  append_assoc, if◌then◌else◌, Bool-cases, inl, inr, ℤ, pos, negsuc, arith, ◌==◌,
}
use ugly_ff.Text.Case.{Text}
use ugly_ff.Socket.{is_invalid}
use ugly_ff.Listener.{
  TcpServer, SockAddr, BindCalls, bind, bind_sock, close_sock, destroy_server, new_tcp_server,
  any_addr, SockOpt, reuse_addr, rcv_buf, snd_buf, window_size, max_waitqueue,
}

-- one call of Bind after the other
unfoldable pub run_binds : List (BindCalls × ℕ) → TcpServer → TcpServer
run_binds [] s = s
run_binds ((calls, port) ∷ cs) s = run_binds cs (bind calls port s).1

-- The descriptor that a value stands for: -1 and -2 stand for none.
pub descriptor : ℤ → List ℤ
descriptor z = if is_invalid z then [] else if is_minus_one z then [] else z ∷ []

-- what socket() gave, where Bind called it
abbrev pub opened_in : BindCalls → TcpServer → List ℤ
opened_in calls s = if is_invalid s.sock then descriptor calls.socket else []

unfoldable pub opened : List (BindCalls × ℕ) → TcpServer → List ℤ
opened [] s = []
opened ((calls, port) ∷ cs) s = opened_in calls s ++ opened cs (bind calls port s).1

-- socket() gives a descriptor or -1.
abbrev pub NotReserved : BindCalls × ℕ → Type 0
NotReserved (calls, port) = is_invalid calls.socket ≡ false

abbrev pub AllNotReserved : List (BindCalls × ℕ) → Type 0
AllNotReserved [] = Unit
AllNotReserved (c ∷ cs) = NotReserved c × AllNotReserved cs

-- what was closed, and what is held
abbrev accounts : TcpServer → List ℤ
accounts s = s.closed ++ descriptor s.sock

descriptor_held : (z : ℤ) → is_invalid z ≡ false → is_minus_one z ≡ false → descriptor z ≡ z ∷ []
unfolding descriptor
descriptor_held z v m = rw (v, m)

descriptor_free : (z : ℤ) → is_invalid z ≡ true → descriptor z ≡ []
unfolding descriptor
descriptor_free z v = rw v

close-accounts :
    (s : TcpServer)
    → is_invalid s.sock ≡ false
    → is_minus_one s.sock ≡ false
    → accounts (close_sock s) ≡ accounts s
unfolding close_sock is_invalid descriptor
close-accounts s v m = append-nil _ ∙ ap (λ t. s.closed ++ t) (sym (descriptor_held s.sock v m))

module _ (s : TcpServer) (port : ℕ) (h : accounts (close_sock s) ≡ accounts s) where
  -- what Bind gives, by which of its five calls failed
  abbrev by_failures : (a b c d e : Bool) → Bool × TcpServer
  by_failures a b c d e =
      if a
      then (false, close_sock s)
      else if b
      then (false, close_sock s)
      else if c
      then (false, close_sock s)
      else if d
      then (false, close_sock s)
      else if e
      then (false, close_sock s)
      else (true, record s { addr = any_addr port })

  any_failure : (a b c d e : Bool) → accounts (by_failures a b c d e).1 ≡ accounts s
  any_failure true b c d e = h
  any_failure false true c d e = h
  any_failure false false true d e = h
  any_failure false false false true e = h
  any_failure false false false false true = h
  any_failure false false false false false = refl

bind_sock-accounts :
    (calls : BindCalls) (port : ℕ) (s : TcpServer)
    → is_invalid s.sock ≡ false
    → accounts (bind_sock calls port s).1 ≡ accounts s
unfolding bind_sock
bind_sock-accounts calls port s v = elim (Bool-cases (is_minus_one s.sock)) [
  | inl gone ↦ rw gone refl
  | inr held ↦
      let fails : SockOpt → Bool = λ option. is_minus_one (calls.setsockopt s.sock option) in
      rw held (
        any_failure s port (close-accounts s v held) (fails reuse_addr)
          (fails (rcv_buf window_size)) (fails (snd_buf window_size))
          (is_minus_one (calls.bind s.sock (any_addr port)))
          (is_minus_one (calls.listen s.sock max_waitqueue)))
]

bind-accounts :
    (calls : BindCalls) (port : ℕ) (s : TcpServer)
    → is_invalid calls.socket ≡ false
    → accounts (bind calls port s).1 ≡ accounts s ++ opened_in calls s
unfolding bind
bind-accounts calls port s v = elim (Bool-cases (is_invalid s.sock)) [
  | inl free ↦ rw free (
      bind_sock-accounts calls port (record s { sock = calls.socket }) v
      ∙ ap (λ t. t ++ descriptor calls.socket) (sym (append-nil s.closed))
      ∙ ap (λ t. (s.closed ++ t) ++ descriptor calls.socket) (sym (descriptor_free s.sock free)))
  | inr taken ↦ rw taken (sym (append-nil (accounts s)))
]

run_binds-accounts :
    (cs : List (BindCalls × ℕ)) (s : TcpServer)
    → AllNotReserved cs
    → accounts (run_binds cs s) ≡ accounts s ++ opened cs s
unfolding run_binds opened
run_binds-accounts [] s h = sym (append-nil _)
run_binds-accounts ((calls, port) ∷ cs) s (h, hs) =
    run_binds-accounts cs (bind calls port s).1 hs
    ∙ ap (λ t. t ++ opened cs (bind calls port s).1) (bind-accounts calls port s h)
    ∙ append_assoc (accounts s) (opened_in calls s) (opened cs (bind calls port s).1)

-- the -1 that the destructor closes after a failure of socket()
pub stray : ℤ → List ℤ
stray z = if is_minus_one z then z ∷ [] else []

stray_held :
    (z : ℤ) (closed : List ℤ)
    → is_invalid z ≡ false
    → closed ++ z ∷ [] ≡ (closed ++ descriptor z) ++ stray z
unfolding descriptor stray
stray_held z closed v = elim (Bool-cases (is_minus_one z)) [
  | inl gone ↦ rw (v, gone, append-nil)
  | inr held ↦ rw (v, held, append-nil)
]

stray-nil :
    (z : ℤ) (closed : List ℤ) → is_invalid z ≡ true → closed ≡ (closed ++ descriptor z) ++ stray z
unfolding descriptor stray is_invalid is_minus_one
stray-nil (pos n) closed v = cc
stray-nil (negsuc n) closed v =
    let other : (n == 0) ≡ false = ground arith in
    rw (v, other, append-nil) (sym (append-nil closed))

destroy_server-accounts : (s : TcpServer) → (destroy_server s).closed ≡ accounts s ++ stray s.sock
unfolding destroy_server close_sock
destroy_server-accounts s = elim (Bool-cases (is_invalid s.sock)) [
  | inl free ↦ rw free (stray-nil s.sock s.closed free)
  | inr taken ↦ rw taken (stray_held s.sock s.closed taken)
]

-- However often Bind is called on a new listening socket, once it is destroyed it has closed each
-- descriptor that socket() gave it exactly once, in order; it also closes -1 where the last socket()
-- had failed. (socket() gives a descriptor or -1, not the value INVALID_SOCKET.)
pub run_binds-closed :
    (garbage : SockAddr) (name : Text) (cs : List (BindCalls × ℕ))
    → AllNotReserved cs
    → (destroy_server (run_binds cs (new_tcp_server garbage name))).closed
      ≡ opened cs (new_tcp_server garbage name)
        ++ stray (run_binds cs (new_tcp_server garbage name)).sock
unfolding new_tcp_server is_invalid descriptor
run_binds-closed garbage name cs h =
    let s = run_binds cs (new_tcp_server garbage name) in
    destroy_server-accounts s
    ∙ ap (λ t. t ++ stray s.sock) (run_binds-accounts cs (new_tcp_server garbage name) h)

minus_one-open : (z : ℤ) → is_minus_one z ≡ true → is_invalid z ≡ false
unfolding is_invalid is_minus_one
minus_one-open (pos n) h = refl
minus_one-open (negsuc n) h = ground arith

-- Once socket() has failed (with -1, which is not INVALID_SOCKET), every later Bind fails, whatever
-- the system would give, and changes nothing.
pub bind_after_failure :
    (calls later : BindCalls) (port later_port : ℕ) (s : TcpServer)
    → is_minus_one calls.socket ≡ true
    → is_invalid s.sock ≡ true
    → ((bind calls port s).0 ≡ false)
      × (bind later later_port (bind calls port s).1 ≡ (false, (bind calls port s).1))
unfolding bind bind_sock
bind_after_failure calls later port later_port s failed free =
    let valid : is_invalid calls.socket ≡ false = minus_one-open calls.socket failed in
    let e : bind calls port s ≡ (false, record s { sock = calls.socket }) =
      rw (free, failed) refl in
    (ap (λ t. t.0) e, rw e (rw valid refl))

-- ===== src/SubNet/Outcomes.antt =====
-- include/zSubNetService.cpp: what the result of zSubNetService::init says.
use ugly_ff.Base.{is_minus_one, ℕ, ◌≡◌, refl, Bool, true, false, List, ◌∷◌, some, pos}
use ugly_ff.Socket.{Socket}
use ugly_ff.Socket.Receive.{Received, recv_data}
use ugly_ff.Task.{is_positive}
use ugly_ff.Client.{Client}
use ugly_ff.Service.{net_init}
use ugly_ff.Commands.{startup_request}
use ugly_ff.SubNet.{
  SubNet, Attempt, InitRound, Waiting, after_recv, wait_turn, wait_loop, to_bool, StartCalls,
  with_waiting, conclude, wait_from, request_loop, sub_init,
}
use ugly_ff.SubNet.Waits.{Breaks}

-- How init loses the connection: it sends its request and waits, and the connection breaks.
pub record Loses (stale : ℕ) (attempts : List Attempt) (wire : List ℕ) (rounds : List InitRound)
    (n : SubNet) : Type 0 where
  pub client : Client
  pub asked : request_loop (startup_request n.server_type n.ip) attempts n.client ≡ some client
  pub start : Waiting
  pub waits : wait_from wire n client.psocket ≡ some start
  pub breaks : Breaks stale rounds start

module _ (stale : ℕ) (attempts : List Attempt) (wire : List ℕ) (rounds : List InitRound)
    (calls : StartCalls) (n : SubNet) where
  -- What init comes to: the network was started after an answer of the management server; or the
  -- connection broke before an answer, and nothing was started; or it failed.
  pub data InitSays : Bool × SubNet → Type 0 where
    starts :
        (m : SubNet)
        → m.verified ≡ true
        → net_init calls.net_calls n.port n.net ≡ (true, m.net)
        → InitSays (true, m)
    lost :
        (m : SubNet)
        → m.verified ≡ false
        → m.net ≡ n.net
        → Loses stale attempts wire rounds n
        → InitSays (true, m)
    fails : (m : SubNet) → InitSays (false, m)

-- The peer that closes the connection before its answer is such a case: init says true.
pub sub_init_closed :
    (stale : ℕ) (attempts : List Attempt) (wire : List ℕ) (r : InitRound) (rs : List InitRound)
    (calls : StartCalls) (n : SubNet) (c : Client) (s : Socket) (got : Received)
    → n.verified ≡ false
    → request_loop (startup_request n.server_type n.ip) attempts n.client ≡ some c
    → c.psocket ≡ some s
    → recv_data r.hands wire s ≡ some got
    → got.ret ≡ pos 0
    → (m : SubNet) × (sub_init stale attempts wire (r ∷ rs) calls n ≡ some (true, m))
      × (m.net ≡ n.net)
unfolding sub_init wait_from wait_loop wait_turn after_recv is_minus_one is_positive conclude
    to_bool with_waiting
sub_init_closed stale attempts wire r rs calls n c s got v asked held came eof =
    let m : SubNet = record n {
      client = record c { psocket = some got.socket };
      verified = false;
    } in
    (m, rw (asked, held, v, came, eof) refl, refl)

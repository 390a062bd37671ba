-- ===== src/Task.antt =====
-- class zTCPTask (include/engine.h, include/zTCPTask.cpp): one connection of a server, its life
-- cycle, its test signal, and the loop that hands its messages on.
use ugly_ff.Base.{
  ℕ, zero, suc, Bool, true, false, not, ◌&&◌, List, [], ◌∷◌, Option, none, some, if◌then◌else◌, ltb,
  ◌==◌, get_or, ℤ, pos, negsuc,
}
use ugly_ff.Time.{RTime, Timer, new_timer, elapse, fire}
use ugly_ff.Socket.{Socket, new_socket, safe_delete, poll_recv, poll_send, recv_to_buf_no_poll}
use ugly_ff.Socket.Send.{Sending, Sent, send_cmd, sync}
use ugly_ff.Socket.Receive.{Command, recv_to_cmd}
use ugly_ff.Packet.{max_datasize, ◌>>=◌}
pub mod States
pub mod Signal
pub mod Listening

-- enum zTCPTask_State
pub data State : Type 0 where
  notuse verify synced okay recycle : State

-- enum TerminateMethod
pub data TerminateMethod : Type 0 where
  terminate_no terminate_active terminate_passive : TerminateMethod

pub record Task : Type 0 where
  pub socket : Socket
  pub state : State
  pub buffered : Bool
  pub terminate : TerminateMethod
  pub terminate_wait : Bool
  pub fdsradd : Bool
  pub life_time : RTime
  pub unique_verified : Bool
  pub check_signals : Bool
  pub ten_min : Timer
  pub tick : Bool

-- The constructor, at the clock `now`, over the socket that `new zSocket` gave. `uniqueVerified` is
-- set by nothing, so it holds what `garbage` says.
unfoldable pub new_task : RTime → Bool → Bool → Socket → Task
unfolding new_timer
new_task now check garbage sock = record {
  socket = sock;
  state = notuse;
  buffered = false;
  terminate = terminate_no;
  terminate_wait = false;
  fdsradd = false;
  life_time = now;
  unique_verified = garbage;
  check_signals = check;
  ten_min = new_timer now 30000 0;
  tick = false;
}

-- The destructor: whether it frees the socket
unfoldable pub destroy : Task → Bool × Socket
destroy t = safe_delete t.socket

-- zTCPTask::checkVerifyTimeout with its default interval of 10000 milliseconds
unfoldable pub check_verify_timeout : RTime → Task → Bool
check_verify_timeout ct t = ltb 10000 (elapse t.life_time ct)

unfoldable pub fdsr_add : Task → Task
fdsr_add t = record t { fdsradd = true }

unfoldable pub set_unique : Task → Task
set_unique t = record t { unique_verified = true }

-- TerminateWait, isTerminate, Terminate
unfoldable pub ask_terminate : Task → Task
ask_terminate t = record t { terminate_wait = true }

unfoldable pub is_terminate_method : TerminateMethod → Bool
is_terminate_method terminate_no = false
is_terminate_method terminate_active = true
is_terminate_method terminate_passive = true

unfoldable pub is_terminate : Task → Bool
unfolding is_terminate_method
is_terminate t = is_terminate_method t.terminate

unfoldable pub terminate_by : TerminateMethod → Task → Task
terminate_by method t = record t { terminate = method }

-- what the subclass does when a task enters or leaves the outer container
pub record Hooks : Type 0 where
  pub add_to_container : Task → Task
  pub remove_from_container : Task → Task

unfoldable pub set_state : State → Task → Task
set_state state t = record t { state = state }

module _ (hooks : Hooks) where
  next_from : State → Task → Task
  unfolding set_state
  next_from notuse t = set_state verify t
  next_from verify t = set_state synced t
  next_from synced t = set_state okay (hooks.add_to_container (record t { buffered = true }))
  next_from okay t = set_state recycle (hooks.remove_from_container t)
  next_from recycle t = set_state notuse t

  -- zTCPTask::getNextState
  unfoldable pub get_next_state : Task → Task
  unfolding next_from
  get_next_state t = next_from t.state t

-- zTCPTask::resetState. Its switch over the old state only writes a log line.
unfoldable pub reset_state : Task → Task
unfolding set_state
reset_state t = set_state recycle t

-- zTCPTask::getStateString, as the text's name
unfoldable pub get_state_string : State → List ℕ
get_state_string notuse = b'n' ∷ b'o' ∷ b't' ∷ b'u' ∷ b's' ∷ b'e' ∷ []
get_state_string verify = b'v' ∷ b'e' ∷ b'r' ∷ b'i' ∷ b'f' ∷ b'y' ∷ []
get_state_string synced = b's' ∷ b'y' ∷ b'n' ∷ b'c' ∷ []
get_state_string okay = b'o' ∷ b'k' ∷ b'a' ∷ b'y' ∷ []
get_state_string recycle = b'r' ∷ b'e' ∷ b'c' ∷ b'y' ∷ b'c' ∷ b'l' ∷ b'e' ∷ []

unfoldable pub clear_tick : Task → Task
clear_tick t = record t { tick = false }

unfoldable pub set_tick : Task → Task
set_tick t = record t { tick = true }

-- zTCPTask::checkInterval
unfoldable pub check_interval : RTime → Task → Bool × Task
unfolding fire
check_interval ct t = ((fire ct t.ten_min).0, record t { ten_min = (fire ct t.ten_min).1 })

-- zTCPTask::checkSignal; the timer is asked only where signals are checked.
unfoldable pub check_signal : RTime → Task → Task
unfolding check_interval terminate_by set_tick
check_signal ct t =
    if t.check_signals
    then (let (due, t') = check_interval ct t in
        if due then (if t'.tick then terminate_by terminate_active t' else set_tick t') else t')
    else t

-- a command sent, or the queue flushed, over the task's socket
pub record TaskSent : Type 0 where
  pub ok : Bool
  pub wire : List ℕ
  pub task : Task

abbrev pub over_socket : Task → Option Sent → Option TaskSent
over_socket t r = do
  sent ← r
  some (record { ok = sent.ok; wire = sent.wire; task = record t { socket = sent.socket } })

-- zTCPTask::sendCmd
unfoldable pub task_send_cmd : Option (List ℕ) → Sending → Task → Option TaskSent
task_send_cmd cmd sending t = over_socket t (send_cmd cmd t.buffered sending t.socket)

-- zTCPTask::ListeningSend
unfoldable pub listening_send : Sending → Task → Option TaskSent
listening_send sending t = over_socket t (sync sending t.socket)

-- the task after a loop, and the messages that it handed to msgParse
pub record Heard : Type 0 where
  pub task : Task
  pub messages : List (List ℕ)

abbrev pub heard : List ℕ → Option Heard → Option Heard
heard cmd rest = do r ← rest; some (record r { messages = cmd ∷ r.messages })

unfoldable pub is_positive : ℤ → Bool
is_positive (pos n) = ltb 0 n
is_positive (negsuc n) = false

-- the first two bytes of the block: a test signal has command 0 and parameter 0. Behind a command
-- of one byte the block holds what `stale` says.
unfoldable pub is_test_signal : ℕ → List ℕ → Bool
is_test_signal stale cmd = (get_or cmd 0 stale == 0) && (get_or cmd 1 stale == 0)

module _ (msg_parse : List ℕ → Task → Task) (stale : ℕ) where
  -- the loop of zTCPTask::ListeningRecv; `none` is a fault, or fuel that ran out
  unfoldable pub listen : ℕ → Task → Option Heard
  unfolding is_positive is_test_signal clear_tick
  listen zero t = none
  listen (suc fuel) t = do
    c ← recv_to_cmd max_datasize t.socket
    let t' = record t { socket = c.socket }
    let signal = listen fuel (clear_tick t')
    let message = listen fuel (msg_parse c.cmd t')
    if not (is_positive c.ret)
        then some (record { task = t'; messages = [] })
        else if is_test_signal stale c.cmd
        then signal
        else heard c.cmd message

  -- zTCPTask::ListeningRecv; recvToBuf_NoPoll is asked, and its -1 would end the call.
  unfoldable pub listening_recv : ℕ → Bool → Task → Option (Bool × Heard)
  unfolding listen
  listening_recv fuel need_recv t =
      elim (if need_recv then recv_to_buf_no_poll t.socket else pos 0) [
        | negsuc zero ↦ some (false, record { task = t; messages = [] })
        | _ ↦ (do h ← listen fuel t; some (true, h))
      ]

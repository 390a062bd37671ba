-- ===== src/Server.antt =====
-- superserver/ServerTask.cpp and class ServerTask of superserver/superserver.h: the connection of a
-- server to the management server.
use ugly_ff.Base.{
  ℕ, Bool, true, false, not, ◌&&◌, List, [], ◌∷◌, Option, none, some, if◌then◌else◌, ◌==◌, get_or,
  ℤ,
}
use ugly_ff.Commands.{ServerEntry}
use ugly_ff.Socket.{recv_to_buf_no_poll}
use ugly_ff.Socket.Receive.{Command, recv_to_cmd}
use ugly_ff.Packet.{max_datasize, ◌>>=◌}
use ugly_ff.Task.{Task, is_positive}
use ugly_ff.TaskPool.Rounds.{Answer, success, wait, failure}
pub mod Verify
pub mod Manager
pub mod Login

pub record ServerTask : Type 0 where
  pub task : Task
  pub server_id : ℕ
  pub server_type : ℕ
  pub port : ℕ
  pub online_num : ℕ
  pub sequence_ok : Bool
  pub has_notify_me : Bool
  pub has_process_sequence : Bool
  pub ses : List (ServerEntry × Bool)

-- The constructor, over what the base class's gave
unfoldable pub new_server_task : Task → ServerTask
new_server_task t = record {
  task = t;
  server_id = 0;
  server_type = 0;
  port = 0;
  online_num = 0;
  sequence_ok = false;
  has_notify_me = false;
  has_process_sequence = false;
  ses = [];
}

-- getID, getType and getOnlineNum return 0, whatever the fields hold.
unfoldable pub get_id : ServerTask → ℕ
get_id s = 0

unfoldable pub get_type : ServerTask → ℕ
get_type s = 0

unfoldable pub get_online_num : ServerTask → ℕ
get_online_num s = 0

-- the loop of ServerTask::responseOther over `ses`
unfoldable pub respond : ℕ → List (ServerEntry × Bool) → List (ServerEntry × Bool)
respond id [] = []
respond id ((e, done) ∷ ses) = (if e.server_id == id then (e, true) else (e, done)) ∷ respond id ses

-- ServerTask::responseOther
unfoldable pub task_response_other : ℕ → ServerTask → ServerTask
unfolding respond
task_response_other id s = record s { ses = respond id s.ses }

-- ServerTask::verify returns true before its code for an answer.
unfoldable pub verify_type : ServerTask → Bool
verify_type s = true

-- the command and the parameter of t_Startup_Request; `stale` stands behind a shorter message
unfoldable pub is_startup_request : ℕ → List ℕ → Bool
is_startup_request stale cmd = (get_or cmd 0 stale == 1) && (get_or cmd 1 stale == 1)

-- what ServerTask::verifyConn does with the result of recvToCmd_NoPoll
unfoldable pub answer_to : ℕ → ServerTask → Command → Answer × ServerTask
unfolding is_startup_request verify_type
answer_to stale s c =
    let s' : ServerTask = record s { task = record s.task { socket = c.socket } } in
    if not (is_positive c.ret)
    then (wait, s')
    else if is_startup_request stale c.cmd
    then (if verify_type s' then (success, s') else (failure, s'))
    else (failure, s')

-- ServerTask::verifyConn; `none` is a fault in recvToCmd.
unfoldable pub verify_conn : ℕ → ServerTask → Option (Answer × ServerTask)
unfolding answer_to
verify_conn stale s =
    if is_positive (recv_to_buf_no_poll s.task.socket)
    then (do c ← recv_to_cmd max_datasize s.task.socket; some (answer_to stale s c))
    else some (wait, s)

-- ServerTask's waitSync, recycleConn, uniqueAdd and uniqueRemove
unfoldable pub wait_sync : ServerTask → Answer
wait_sync s = success

unfoldable pub recycle_conn : ServerTask → Answer
recycle_conn s = success

unfoldable pub unique_add_task : ServerTask → Bool
unique_add_task s = true

unfoldable pub unique_remove_task : ServerTask → Bool
unique_remove_task s = false

-- ===== src/Session/System.antt =====
-- All the threads of the server that work for one session, in any interleaving.
use chat_server_mt.Base.{
  ℕ, ◌-◌, ◌≡◌, true, false, Option, none, some, List, [], ◌∷◌, ◌++◌, ◌==◌, if◌then◌else◌,
}
use chat_server_mt.Session.{
  Session, Act, counting, pending_send, releasing, accepting, calling, working, update_io_count,
  try_send, release, accept_count, Request, enter, recv_done, send_done, Thread, Choice,
}
use chat_server_mt.Session.Run.{run_act}

pub record System : Type 0 where
  pub mem : Session
  pub threads : List Thread

-- How a thread comes to work for the session: a call of the server with its id, the accept thread
-- that pops its index and will give it an id, and a worker that takes from the completion port a
-- request under way or a post.
pub data Arrival : Type 0 where
  call : Request → Arrival
  accept : ℕ → Arrival
  recv_completes send_completes send_pended release_pended cancelled : Arrival

-- Whether there is something to take, what is left, and what the thread has to do.
abbrev taken : ℕ → Session → Act → Option (Session × Thread)
taken pending m act = if pending == 0 then none else some (m, act ∷ counting update_io_count ∷ [])

unfoldable pub arrive : Arrival → Session → Option (Session × Thread)
arrive (call r) m = some (m, calling (enter r) ∷ [])
arrive (accept id) m =
    if m.on_stack == 0
    then none
    else some (record m { on_stack = m.on_stack - 1 }, accepting (accept_count id) ∷ [])
arrive recv_completes m = taken m.recv_io (record m { recv_io = m.recv_io - 1 }) (working recv_done)
arrive send_completes m = taken m.send_io (record m { send_io = m.send_io - 1 }) (working send_done)
arrive send_pended m =
    taken m.send_pends (record m { send_pends = m.send_pends - 1 }) (pending_send try_send)
arrive release_pended m =
    taken m.release_pends (record m { release_pends = m.release_pends - 1 }) (releasing release)
arrive cancelled m =
    if m.cancel_ios == 0
    then none
    else some (record m { cancel_ios = m.cancel_ios - 1 }, counting update_io_count ∷ [])

-- A thread arrives, or one of them goes on.
pub data Step (s : System) : System → Type 0 where
  arrives :
      (a : Arrival) {m : Session} {t : Thread}
      → arrive a s.mem ≡ some (m, t)
      → Step s (record { mem = m; threads = t ∷ s.threads })
  goes_on :
      (before after : List Thread) (act : Act) (rest : Thread) (c : Choice) {m : Session}
      {more : Thread}
      → s.threads ≡ before ++ (act ∷ rest) ∷ after
      → run_act c act s.mem ≡ some (m, more)
      → Step s (record { mem = m; threads = before ++ (more ++ rest) ∷ after })

-- A session as the server makes it, with its index on the stack.
abbrev pub fresh : Session
fresh = record {
  session_id = 0;
  io_count = 0;
  release_flag = true;
  disconnect = true;
  send_post_flag = false;
  send_q_size = 0;
  recv_io = 0;
  send_io = 0;
  send_pends = 0;
  release_pends = 0;
  cancel_ios = 0;
  on_stack = 1;
  joined = false;
  session_cnt = 0;
}

abbrev pub init : System
init = record { mem = fresh; threads = [] }

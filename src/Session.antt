-- ===== src/Session.antt =====
-- session.h, and the functions of CNetServer.cpp that share a session between threads: one slot of
-- `m_sessionArr` with its flags, what the completion port holds for it, and where a thread stands.
-- A thread is the list of what it has still to do for the session. Each entry is one access to the
-- shared fields, or the reads of one condition, so that an interleaving of the threads is a
-- sequence of steps (Session/System). CancelIoEx is left out: a request may complete at any time.
pub mod Run
pub mod System
pub mod Weights
pub mod Inv
pub mod Keeps
pub mod Covered
pub mod Reach
pub mod Life
mod Schedule
mod Examples
use chat_server_mt.Base.{ℕ, Bool, List}

-- `io_count` and `release_flag` are the two halves of one 64-bit word. The lower fields are the
-- completion port and the stack of free indices, as far as they concern this session: the requests
-- under way, the posts of each kind, and how often its index is on the stack.
pub record Session : Type 0 where
  pub session_id : ℕ
  pub io_count : ℕ
  pub release_flag : Bool
  pub disconnect : Bool
  pub send_post_flag : Bool
  pub send_q_size : ℕ
  pub recv_io : ℕ
  pub send_io : ℕ
  pub send_pends : ℕ
  pub release_pends : ℕ
  pub cancel_ios : ℕ
  pub on_stack : ℕ
  -- Whether OnClientJoin was called, and OnClientLeave was not called since.
  pub joined : Bool
  pub session_cnt : ℕ

-- updateIOCount and releasePend: the decrement, the read of the word, the compare-and-exchange, the
-- increment, and PostQueuedCompletionStatus.
pub data CountPc : Type 0 where
  update_io_count read_word exchange_word count_release post_release : CountPc

-- disconnect: the read, the exchange, the increment, the post.
pub data DisconnectPc : Type 0 where
  read_disconnect exchange_disconnect count_cancel post_cancel : DisconnectPc

-- recvPost: the read of `disconnect`, the increment, WSARecv.
pub data RecvPc : Type 0 where
  recv_post count_recv wsa_recv : RecvPc

-- sendPend and trySend.
pub data PendPc : Type 0 where
  send_pend exchange_pend count_pend post_pend : PendPc
  try_send try_size : PendPc

-- sendPost.
pub data SendPc : Type 0 where
  send_post read_post_flag exchange_post_flag post_size clear_post_flag : SendPc
  fill_send dequeue_send count_send wsa_send : SendPc

-- release: its check and OnClientLeave, and then its writes.
pub data ReleasePc : Type 0 where
  release release_id release_queue release_push : ReleasePc

-- runAcceptThread, from the increment behind the Pop on.
pub data AcceptPc : Type 0 where
  accept_count : ℕ → AcceptPc
  accept_id : ℕ → AcceptPc
  accept_post_flag accept_disconnect accept_release_flag accept_join : AcceptPc

-- The functions that other code calls with a session id, and the timeout thread's round.
pub data Request : Type 0 where
  send_packet disconnect_session : ℕ → Request
  timeout : Request

-- Such a call before its increment, and where it stands behind it.
pub data CallPc : Type 0 where
  enter : Request → CallPc
  check_send check_send_id : ℕ → CallPc
  enqueue_send : CallPc
  check_disconnect check_disconnect_id : ℕ → CallPc
  check_timeout : CallPc

-- runIoThread behind a completed request: the test of `disconnect`, and the loop over the packets.
pub data WorkerPc : Type 0 where
  recv_done send_done handling : WorkerPc

pub data Act : Type 0 where
  counting : CountPc → Act
  cutting : DisconnectPc → Act
  receiving : RecvPc → Act
  pending_send : PendPc → Act
  sending : SendPc → Act
  releasing : ReleasePc → Act
  accepting : AcceptPc → Act
  calling : CallPc → Act
  working : WorkerPc → Act

abbrev pub Thread : Type 0
Thread = List Act

-- What a step takes from outside: whether the call of the system succeeds (or bytes came, or the
-- test on a time holds), a number, and what a packet's handler asks for.
pub record Choice : Type 0 where
  pub good : Bool
  pub n : ℕ
  pub request : Request

-- ===== src/Session/Examples.antt =====
-- A session that is opened and answers a packet, and one that fails to receive and is closed.
use chat_server_mt.Base.{
  ℕ, ◌+◌, ◌≤◌, ◌≡◌, refl, true, false, some, List, [], ◌∷◌, ◌++◌, replicate, dec_lt,
}
use chat_server_mt.Session.Weights.{totals, refs, opening, closing, leaving, senders, receivers}
use chat_server_mt.Session.{
  Session, Thread, Choice, timeout, send_packet, accepting, receiving, pending_send, counting,
  releasing, working, accept_join, release, update_io_count, handling, recv_post, count_pend,
}
use chat_server_mt.Session.Run.{run_act}
use chat_server_mt.Session.System.{
  System, fresh, arrive, accept, recv_completes, cancelled, release_pended,
}
use chat_server_mt.Session.Reach.{Reach}
use chat_server_mt.Session.Schedule.{Move, enters, runs, play}
use chat_server_mt.Session.Life.{never_crashes, no_leak, one_owner, one_request, join_and_leave}

-- A call succeeds; the loop over the packets handles one that asks for an answer.
abbrev well : Choice
well = record { good = true; n = 1; request = send_packet 7 }

abbrev badly : Choice
badly = record { good = false; n = 0; request = timeout }

abbrev times : ℕ → List Move
times n = replicate n (runs well)

-- The accept thread up to the call of OnClientJoin.
abbrev opening_moves : List Move
opening_moves = enters (accept 7) ∷ times 5

-- The first receive brings a packet, and its handler sends an answer.
abbrev answering_moves : List Move
answering_moves = opening_moves ++ times 5 ++ enters recv_completes ∷ times 8

-- The first receive fails: the session is disconnected, and its last reference is given back.
abbrev releasing_moves : List Move
releasing_moves =
    opening_moves
    ++ times 3
    ++ runs badly ∷ times 6
    ++ enters cancelled ∷ times 5
    ++ enters release_pended ∷ []

abbrev closed_moves : List Move
closed_moves = releasing_moves ++ times 6

abbrev opened : System
opened = record {
  mem = record fresh {
    session_id = 7;
    io_count = 1;
    release_flag = false;
    disconnect = false;
    on_stack = 0;
  };
  threads = (accepting accept_join ∷ counting update_io_count ∷ []) ∷ [];
}

abbrev answering : System
answering = record {
  mem = record opened.mem {
    io_count = 2;
    send_post_flag = true;
    send_q_size = 1;
    joined = true;
    session_cnt = 1;
  };
  threads =
      (pending_send count_pend
        ∷ counting update_io_count
        ∷ working handling
        ∷ receiving recv_post
        ∷ counting update_io_count
        ∷ [])
      ∷ []
      ∷ [];
}

abbrev releasing_state : System
releasing_state = record {
  mem = record fresh { session_id = 7; io_count = 1; on_stack = 0; joined = true; session_cnt = 1 };
  threads = (releasing release ∷ counting update_io_count ∷ []) ∷ [] ∷ [] ∷ [];
}

abbrev closed : System
closed = record { mem = fresh; threads = [] ∷ [] ∷ [] ∷ [] }

opened-Reach : Reach opened
unfolding play arrive dec_lt run_act
opened-Reach = (play opening_moves).1

answering-Reach : Reach answering
unfolding play arrive dec_lt run_act
answering-Reach = (play answering_moves).1

releasing-Reach : Reach releasing_state
unfolding play arrive dec_lt run_act
releasing-Reach = (play releasing_moves).1

closed-Reach : Reach closed
unfolding play arrive dec_lt run_act
closed-Reach = (play closed_moves).1

-- The thread that has to call OnClientLeave can go on.
never_crashes_example :
    (m : Session) × (more : Thread) × (run_act well (releasing release) releasing_state.mem
      ≡ some (m, more))
never_crashes_example =
    never_crashes releasing_state [] ([] ∷ [] ∷ []) (releasing release)
      (counting update_io_count ∷ []) well releasing-Reach refl

no_leak_example : (fresh.on_stack ≡ 1) × (fresh.joined ≡ false) × (fresh.release_flag ≡ true)
no_leak_example = no_leak closed closed-Reach tt refl

one_owner_example :
    (0
        + totals opening answering.threads
        + totals closing answering.threads
        + 0
        + totals leaving answering.threads
        + 1
      ≡ 1)
    × (2 ≡ totals refs answering.threads + 0)
one_owner_example = one_owner answering answering-Reach

one_request_example :
    (totals receivers answering.threads + 0 ≤ 1) × (totals senders answering.threads + 0 + 0 ≤ 1)
one_request_example = one_request answering answering-Reach

join_and_leave_example :
    (accepting accept_join ≡ accepting accept_join → opened.mem.joined ≡ false)
    × (accepting accept_join ≡ releasing release → opened.mem.joined ≡ true)
join_and_leave_example =
    join_and_leave opened [] [] (accepting accept_join) (counting update_io_count ∷ []) opened-Reach
      refl

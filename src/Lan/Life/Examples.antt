-- ===== src/Lan/Life/Examples.antt =====
-- A connection that the monitor server closes right behind a SendPacket.
use chat_server_mt.Base.{
  ℕ, ◌^◌, ◌<◌, ◌≡◌, ◌≢◌, refl, Bool, true, false, some, none, List, [], ◌∷◌, ◌++◌, arith,
}
use chat_server_mt.Lan.Life.{
  Connection, Access, Chance, lan_run, lan_count, lan_disconnect, lan_recv_post, lan_pend, lan_call,
  lan_complete, increment, cutting, receiving, pending, calling, completing, counting,
  update_io_count, recv_post, count_recv, wsa_recv, enter, check_flags, enqueue, send_pend,
  count_pend, post_pend, recv_done, read_disconnect, exchange_disconnect, count_cancel,
}
use chat_server_mt.Lan.Life.System.{
  LanSystem, totals, lan_refs, calls, receives, begins, goes_on, LanSteps, stays, steps_on,
  connect_session,
}
use chat_server_mt.Lan.Life.Refs.{lan_count-refs}
use chat_server_mt.Lan.Life.Stuck.{IsStuck, shuts}
use chat_server_mt.Lan.Life.Livelock.{never_released}

abbrev good : Chance
good = record { good = true; more = false }

-- The first thread makes its next access.
goes :
    (conn m : Connection) (a : Access) (rest xs : List Access) (after : List (List Access))
    → LanSteps connect_session (record { conn = conn; threads = (a ∷ rest) ∷ after })
    → lan_run good a conn ≡ some (m, xs)
    → lan_refs (record { conn = m; threads = (xs ++ rest) ∷ after }) < 2 ^ 31
    → LanSteps connect_session (record { conn = m; threads = (xs ++ rest) ∷ after })
goes conn m a rest xs after h run small =
    steps_on h (goes_on [] after a rest good m xs refl run refl) small

abbrev conn_of : (io q rio sp : ℕ) (d sf : Bool) → Connection
conn_of io q rio sp d sf = record {
  io_count = io;
  release_flag = false;
  disconnect = d;
  send_flag = sf;
  queued = q;
  sent_packet_cnt = 0;
  recv_io = rio;
  send_io = 0;
  send_pends = sp;
  release_pends = 0;
  cancel_ios = 0;
}

abbrev updating : List Access
updating = counting update_io_count ∷ []

abbrev receiving_one : LanSystem
receiving_one = record { conn = conn_of 2 0 1 0 false false; threads = updating ∷ [] }

receiving_one-Steps : LanSteps connect_session receiving_one
unfolding lan_run lan_recv_post increment
receiving_one-Steps =
    let h1 =
      goes connect_session.conn (conn_of 1 0 0 0 false false) (receiving recv_post) updating
        (receiving count_recv ∷ []) [] (stays refl) refl (omega arith) in
    let h2 =
      goes _ (conn_of 2 0 0 0 false false) (receiving count_recv) updating (receiving wsa_recv ∷ [])
        [] h1 refl (omega arith) in
    goes _ (conn_of 2 0 1 0 false false) (receiving wsa_recv) updating [] [] h2 refl (omega arith)

abbrev sending_one : LanSystem
sending_one = record { conn = conn_of 4 1 1 1 false true; threads = updating ∷ updating ∷ [] }

sending_one-Steps : LanSteps connect_session sending_one
unfolding lan_run lan_call lan_pend increment
sending_one-Steps =
    let h0 = steps_on receiving_one-Steps (begins _ _ calls refl) (omega arith) in
    let h1 =
      goes _ (conn_of 3 0 1 0 false false) (calling enter) [] (calling check_flags ∷ updating)
        (updating ∷ []) h0 refl (omega arith) in
    let h2 =
      goes _ (conn_of 3 0 1 0 false false) (calling check_flags) updating (calling enqueue ∷ [])
        (updating ∷ []) h1 refl (omega arith) in
    let h3 =
      goes _ (conn_of 3 1 1 0 false false) (calling enqueue) updating (pending send_pend ∷ [])
        (updating ∷ []) h2 refl (omega arith) in
    let h4 =
      goes _ (conn_of 3 1 1 0 false true) (pending send_pend) updating (pending count_pend ∷ [])
        (updating ∷ []) h3 refl (omega arith) in
    let h5 =
      goes _ (conn_of 4 1 1 0 false true) (pending count_pend) updating (pending post_pend ∷ [])
        (updating ∷ []) h4 refl (omega arith) in
    goes _ (conn_of 4 1 1 1 false true) (pending post_pend) updating [] (updating ∷ []) h5 refl
      (omega arith)

abbrev cut_off : LanSystem
cut_off = record {
  conn = conn_of 4 1 0 1 true true;
  threads = (cutting count_cancel ∷ updating) ∷ updating ∷ updating ∷ [];
}

cut_off-Steps : LanSteps connect_session cut_off
unfolding lan_run lan_complete lan_disconnect
cut_off-Steps =
    let h0 = steps_on sending_one-Steps (begins _ _ (receives 0 0 refl) refl) (omega arith) in
    let h1 =
      goes _ (conn_of 4 1 0 1 false true) (completing (recv_done 0)) updating
        (cutting read_disconnect ∷ []) (updating ∷ updating ∷ []) h0 refl (omega arith) in
    let h2 =
      goes _ (conn_of 4 1 0 1 false true) (cutting read_disconnect) updating
        (cutting exchange_disconnect ∷ []) (updating ∷ updating ∷ []) h1 refl (omega arith) in
    goes _ (conn_of 4 1 0 1 true true) (cutting exchange_disconnect) updating
      (cutting count_cancel ∷ []) (updating ∷ updating ∷ []) h2 refl (omega arith)

cut_off-IsStuck : IsStuck cut_off
cut_off-IsStuck = record {
  cut = refl;
  waiting = omega arith;
  kept = refl;
  shut = refl;
  backed = omega arith;
  goes = omega arith;
}

lan_count-refs_example :
    (receiving_one.conn.io_count ≡ lan_refs receiving_one)
    × (lan_count update_io_count receiving_one.conn ≢ none)
lan_count-refs_example = lan_count-refs receiving_one [] [] [] receiving_one-Steps refl

never_released_example :
    (0 < cut_off.conn.io_count)
    × (cut_off.conn.release_pends ≡ 0)
    × (0 < cut_off.conn.queued)
    × (totals shuts cut_off.threads ≡ 0)
never_released_example = never_released cut_off cut_off cut_off-Steps cut_off-IsStuck (stays refl)

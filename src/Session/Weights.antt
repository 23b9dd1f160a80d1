-- ===== src/Session/Weights.antt =====
-- What the threads hold: numbers counted over everything that they have still to do.
use chat_server_mt.Base.{ℕ, ◌+◌, ◌≤◌, ◌≡◌, List, [], ◌∷◌, ◌++◌, arith}
use chat_server_mt.Session.{
  update_io_count, read_word, exchange_word, count_release, post_release, read_disconnect,
  exchange_disconnect, post_cancel, wsa_recv, count_pend, post_pend, try_send, post_size,
  clear_post_flag, fill_send, dequeue_send, count_send, wsa_send, release, accept_join,
  accept_count, recv_done, send_done, enter, check_send_id, enqueue_send, check_disconnect_id, Act,
  counting, cutting, receiving, sending, pending_send, releasing, accepting, calling, working,
  Thread,
}

module _ (f : Act → ℕ) where
  abbrev pub total : Thread → ℕ
  total [] = 0
  total (a ∷ t) = f a + total t

  abbrev pub totals : List Thread → ℕ
  totals [] = 0
  totals (t ∷ ts) = total t + totals ts

  pub total-append : (t u : Thread) → total (t ++ u) ≡ total t + total u
  total-append [] u = omega arith
  total-append (a ∷ t) u = omega (arith, total-append t u)

  pub totals-append : (ts us : List Thread) → totals (ts ++ us) ≡ totals ts + totals us
  totals-append [] us = omega arith
  totals-append (t ∷ ts) us = omega (arith, totals-append ts us)

-- The references to the session that an entry will give back: each is one in `io_count`.
abbrev pub refs : Act → ℕ
refs (counting update_io_count) = 1
refs (counting post_release) = 1
refs (cutting post_cancel) = 1
refs (receiving wsa_recv) = 1
refs (pending_send post_pend) = 1
refs (sending wsa_send) = 1
refs _ = 0

-- The one right to the slot while it is being opened, or closed.
abbrev pub opening : Act → ℕ
opening (accepting accept_join) = 0
opening (accepting _) = 1
opening _ = 0

abbrev pub closing : Act → ℕ
closing (counting count_release) = 1
closing (counting post_release) = 1
closing (releasing release) = 1
closing _ = 0

-- Behind OnClientLeave.
abbrev pub leaving : Act → ℕ
leaving (releasing release) = 0
leaving (releasing _) = 1
leaving _ = 0

-- Who will post the next receive, or else disconnect.
abbrev pub readers : Act → ℕ
readers (cutting read_disconnect) = 1
readers (cutting exchange_disconnect) = 1
readers (receiving _) = 1
readers (accepting accept_join) = 1
readers (working recv_done) = 1
readers _ = 0

abbrev pub joiners : Act → ℕ
joiners (accepting accept_join) = 1
joiners _ = 0

-- Who looks whether the last reference is gone.
abbrev pub watchers : Act → ℕ
watchers (counting read_word) = 1
watchers (counting exchange_word) = 1
watchers _ = 0

-- What is only done for a session that is live.
abbrev pub inner : Act → ℕ
inner (cutting _) = 1
inner (receiving _) = 1
inner (pending_send _) = 1
inner (sending _) = 1
inner (working _) = 1
inner (calling (check_send_id _)) = 1
inner (calling enqueue_send) = 1
inner (calling (check_disconnect_id _)) = 1
inner _ = 0

-- Who owns `send_post_flag`, and with it the ring for sending.
abbrev pub senders : Act → ℕ
senders (pending_send count_pend) = 1
senders (pending_send post_pend) = 1
senders (pending_send try_send) = 1
senders (sending post_size) = 1
senders (sending clear_post_flag) = 1
senders (sending fill_send) = 1
senders (sending dequeue_send) = 1
senders (sending count_send) = 1
senders (sending wsa_send) = 1
senders (working send_done) = 1
senders _ = 0

-- Who owns the ring for receiving.
abbrev pub receivers : Act → ℕ
receivers (receiving _) = 1
receivers (accepting accept_join) = 1
receivers (working recv_done) = 1
receivers _ = 0

-- What may only be done by a thread that gives a reference back later.
abbrev pub needs : Act → ℕ
needs (counting _) = 0
needs (accepting (accept_count _)) = 0
needs (calling (enter _)) = 0
needs (cutting post_cancel) = 0
needs (pending_send post_pend) = 0
needs (releasing _) = 0
needs _ = 1

abbrev pub IsCovered : Thread → Type 0
IsCovered [] = Unit {0}
IsCovered (a ∷ t) = (needs a ≤ total refs t) × IsCovered t

abbrev pub AllCovered : List Thread → Type 0
AllCovered [] = Unit {0}
AllCovered (t ∷ ts) = IsCovered t × AllCovered ts

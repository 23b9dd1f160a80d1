-- ===== src/Session/Life.antt =====
-- What holds of a session in every interleaving of the threads (CNetServer.cpp).
use chat_server_mt.Base.{
  ℕ, ◌+◌, ◌≤◌, ◌≡◌, ap, sym, refl, subst, true, false, none, some, List, [], ◌∷◌, ◌++◌, arith,
}
use chat_server_mt.Session.{
  Session, Act, Thread, Choice, accepting, releasing, accept_join, release,
}
use chat_server_mt.Session.Run.{After, run_act}
use chat_server_mt.Session.System.{System}
use chat_server_mt.Session.Weights.{
  totals, totals-append, refs, watchers, opening, closing, leaving, senders, receivers, joiners,
}
use chat_server_mt.Session.Inv.{Held, Keeps, pending, live}
use chat_server_mt.Session.Reach.{Reach, Reach-IsValid, Reach-IsSmallSystem, others, goes_on-Keeps}

goes-on :
    (h : Held) (o : After) → Keeps h o → (m : Session) × (more : Thread) × (o ≡ some (m, more))
goes-on h none k = elim k [ ]
goes-on h (some (m, more)) k = (m, more, refl)

-- In every interleaving of the accept thread, the worker threads, the timeout thread and callers of
-- SendPacket and DisconnectSession, as long as fewer than 2^31 references are held at a time, no
-- step for a session comes to CrashDump::Crash(): updateIOCount never makes io_count negative, and
-- release never finds a session that is not disconnected.
pub never_crashes :
    (s : System) (before after : List Thread) (act : Act) (rest : Thread) (c : Choice)
    → Reach s
    → s.threads ≡ before ++ (act ∷ rest) ∷ after
    → (m : Session) × (more : Thread) × (run_act c act s.mem ≡ some (m, more))
never_crashes s before after act rest c r e =
    goes-on (others before after rest) (run_act c act s.mem)
      (goes_on-Keeps s before after act rest e (Reach-IsValid r) (Reach-IsSmallSystem r) c)

-- No thread has anything left to do.
abbrev pub IsIdle : List Thread → Type 0
IsIdle [] = Unit {0}
IsIdle ([] ∷ ts) = IsIdle ts
IsIdle ((a ∷ t) ∷ ts) = ⊥

IsIdle-zero : (f : Act → ℕ) (ts : List Thread) → IsIdle ts → totals f ts ≡ 0
IsIdle-zero f [] i = refl
IsIdle-zero f ([] ∷ ts) i = omega (arith, IsIdle-zero f ts i)
IsIdle-zero f ((a ∷ t) ∷ ts) i = elim i [ ]

-- In every interleaving of the threads of the server with fewer than 2^31 references to a session
-- at a time, once no thread has anything left to do for a session, no request is under way and no
-- post waits, its index is on the stack of free indices, exactly once, OnClientLeave was called
-- after the last OnClientJoin, and the release flag is set: no session is lost.
pub no_leak :
    (s : System)
    → Reach s
    → IsIdle s.threads
    → pending s.mem ≡ 0
    → (s.mem.on_stack ≡ 1) × (s.mem.joined ≡ false) × (s.mem.release_flag ≡ true)
no_leak s r idle quiet =
    let v = (Reach-IsValid r).inv in
    let none = λ (f : Act → ℕ). IsIdle-zero f s.threads idle in
    ground (
      arith,
      v,
      quiet,
      none refs,
      none opening,
      none closing,
      none leaving,
      none joiners,
      none watchers,
    )

-- In every interleaving of the threads of the server with fewer than 2^31 references to a session
-- at a time, a slot has exactly one owner: it is free on the stack once, or being opened by one
-- accept thread, or live, or being closed by one thread or one post; and io_count is the number of
-- references that the threads will give back, plus the requests under way and the posts that wait.
pub one_owner :
    (s : System)
    → Reach s
    → (s.mem.on_stack
          + totals opening s.threads
          + totals closing s.threads
          + s.mem.release_pends
          + totals leaving s.threads
          + live s.mem
        ≡ 1)
      × (s.mem.io_count ≡ totals refs s.threads + pending s.mem)
one_owner s r = let v = (Reach-IsValid r).inv in (v.one, v.counted)

-- In every interleaving of the threads of the server with fewer than 2^31 references to a session
-- at a time, at most one thread or request uses the receive ring of a session, and at most one
-- thread, request or post the ring for sending, so that both rings have one user at a time.
pub one_request :
    (s : System)
    → Reach s
    → (totals receivers s.threads + s.mem.recv_io ≤ 1)
      × (totals senders s.threads + s.mem.send_io + s.mem.send_pends ≤ 1)
one_request s r = let v = (Reach-IsValid r).inv in ground (arith, v)

count-here :
    (f : Act → ℕ) (before after : List Thread) (act : Act) (rest : Thread)
    → f act ≤ totals f (before ++ (act ∷ rest) ∷ after)
count-here f before after act rest = omega (arith, totals-append f before ((act ∷ rest) ∷ after))

-- In every interleaving of the threads of the server with fewer than 2^31 references to a session
-- at a time, OnClientJoin and OnClientLeave alternate: a thread about to call OnClientJoin finds
-- that the last session of the slot has left, and a thread about to call OnClientLeave finds that
-- its session has joined.
pub join_and_leave :
    (s : System) (before after : List Thread) (act : Act) (rest : Thread)
    → Reach s
    → s.threads ≡ before ++ (act ∷ rest) ∷ after
    → (act ≡ accepting accept_join → s.mem.joined ≡ false)
      × (act ≡ releasing release → s.mem.joined ≡ true)
join_and_leave s before after act rest r e =
    let v = (Reach-IsValid r).inv in
    let here = λ (f : Act → ℕ).
      subst (λ ts. f act ≤ totals f ts) (sym e) (count-here f before after act rest) in
    (
      λ a. ground (arith, v, here joiners, ap joiners a),
      λ a. ground (arith, v, here closing, ap closing a),
    )

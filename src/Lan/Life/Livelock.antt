-- ===== src/Lan/Life/Livelock.antt =====
-- What follows when CLanClient is disconnected while packets wait in its queue.
use chat_server_mt.Base.{
  ℕ, ◌+◌, ◌≤◌, ◌<◌, ◌≡◌, ◌≢◌, refl, ap, subst, sym, some, List, [], ◌∷◌, ◌++◌, arith,
}
use chat_server_mt.Lan.Life.{Connection, Access, Chance, lan_run, counting, update_io_count}
use chat_server_mt.Lan.Life.System.{
  LanSystem, total, totals, total-append, totals-split, holds, in_port, Begins, calls, disconnects,
  receives, sent, pends, releases, cancels, LanStep, begins, goes_on, LanSteps, stays, steps_on,
  connect_session,
}
use chat_server_mt.Lan.Life.Refs.{AllCounted, Steps-AllCounted}
use chat_server_mt.Lan.Life.Stuck.{
  shuts, raises, tries, needs, IsBacked, AllBacked, posting, IsStuck, Stays, lan_run-Stays,
}

IsBacked-append :
    (xs ys : List Access) → IsBacked (total holds ys) xs → IsBacked 0 ys → IsBacked 0 (xs ++ ys)
IsBacked-append [] ys h k = k
IsBacked-append (a ∷ xs) ys h k =
    (omega (arith, h.0, total-append holds xs ys), IsBacked-append xs ys h.1 k)

AllBacked-split : (ts us : List (List Access)) → AllBacked (ts ++ us) → AllBacked ts × AllBacked us
AllBacked-split [] us h = (tt, h)
AllBacked-split (t ∷ ts) us h = let w = AllBacked-split ts us h.1 in ((h.0, w.0), w.1)

AllBacked-append : (ts us : List (List Access)) → AllBacked ts → AllBacked us → AllBacked (ts ++ us)
AllBacked-append [] us h k = k
AllBacked-append (t ∷ ts) us h k = (h.0, AllBacked-append ts us h.1 k)

-- A thread with no reference does not lead to a post.
needs-most : (a : Access) → raises a + tries a ≤ needs a + holds a
needs-most a = ground arith

idle :
    (xs : List Access) → IsBacked 0 xs → total holds xs ≡ 0 → total raises xs + total tries xs ≡ 0
idle [] h e = refl
idle (a ∷ xs) h e = omega (arith, h.0, e, needs-most a, idle xs h.1 (omega (arith, e)))

idle_all :
    (ts : List (List Access))
    → AllBacked ts
    → totals holds ts ≡ 0
    → totals raises ts + totals tries ts ≡ 0
idle_all [] h e = refl
idle_all (t ∷ ts) h e =
    omega (arith, idle t h.0 (omega (arith, e)), idle_all ts h.1 (omega (arith, e)))

positive : (n : ℕ) → n ≢ 0 → 1 ≤ n
positive n h = ground (arith, h)

posting-refs :
    (m : Connection) (ts : List (List Access))
    → AllBacked ts
    → 1 ≤ posting m (totals raises ts) (totals tries ts)
    → 1 ≤ in_port m + totals holds ts
posting-refs m ts b p =
    positive (in_port m + totals holds ts)
      (λ e. let none = idle_all ts b (omega (arith, e)) in ground (arith, p, none, e))

Begins-IsStuck :
    (s : LanSystem) (m : Connection) (xs : List Access)
    → Begins s.conn xs m
    → IsStuck s
    → IsStuck (record { conn = m; threads = xs ∷ s.threads })
Begins-IsStuck s m xs calls h = ground (arith, h)
Begins-IsStuck s m xs disconnects h = ground (arith, h)
Begins-IsStuck s m xs (receives n k e) h = ground (arith, h, e)
Begins-IsStuck s m xs (sent n k e) h = ground (arith, h, e)
Begins-IsStuck s m xs (pends k e) h = ground (arith, h, e)
Begins-IsStuck s m xs (releases k e) h = ground (arith, h, e)
Begins-IsStuck s m xs (cancels k e) h = ground (arith, h, e)

module _ (m : Connection) (before after : List (List Access)) (a : Access) (rest : List Access)
    (k : AllCounted (record { conn = m; threads = before ++ (a ∷ rest) ∷ after }))
    (h : IsStuck (record { conn = m; threads = before ++ (a ∷ rest) ∷ after })) where
  -- The last reference is never given back.
  not_last : a ≡ counting update_io_count → 2 ≤ m.io_count
  not_last e =
      let w = AllBacked-split before ((a ∷ rest) ∷ after) h.backed in
      let others = AllBacked-append before (rest ∷ after) w.0 (w.1.0.1, w.1.1) in
      let r = totals-split raises before after (a ∷ []) rest in
      let r' = totals-split raises before after [] rest in
      let t = totals-split tries before after (a ∷ []) rest in
      let t' = totals-split tries before after [] rest in
      let same_r : totals raises (before ++ rest ∷ after)
          ≡ totals raises (before ++ (a ∷ rest) ∷ after) =
        omega (arith, r, r', ap raises e) in
      let same_t : totals tries (before ++ rest ∷ after)
          ≡ totals tries (before ++ (a ∷ rest) ∷ after) =
        omega (arith, t, t', ap tries e) in
      let go : 1
          ≤ posting m (totals raises (before ++ rest ∷ after))
              (totals tries (before ++ rest ∷ after)) =
        rw (same_r, same_t) h.goes in
      omega (
        arith,
        posting-refs m (before ++ rest ∷ after) others go,
        k.0,
        ap holds e,
        totals-split holds before after (a ∷ []) rest,
        totals-split holds before after [] rest,
      )

  goes_on-IsStuck :
      (c : Chance) (m' : Connection) (xs : List Access)
      → lan_run c a m ≡ some (m', xs)
      → IsStuck (record { conn = m'; threads = before ++ (xs ++ rest) ∷ after })
  goes_on-IsStuck c m' xs e =
      let w = AllBacked-split before ((a ∷ rest) ∷ after) h.backed in
      let r : ℕ = totals raises before + total raises rest + totals raises after in
      let t : ℕ = totals tries before + total tries rest + totals tries after in
      let sum = λ (f : Access → ℕ). totals-split f before after (a ∷ []) rest in
      let same_r : totals raises (before ++ (a ∷ rest) ∷ after) ≡ raises a + r =
        omega (arith, sum raises) in
      let same_t : totals tries (before ++ (a ∷ rest) ∷ after) ≡ tries a + t =
        omega (arith, sum tries) in
      let go =
        subst (λ n. 1 ≤ posting m n (tries a + t)) same_r
          (subst (λ n. 1 ≤ posting m (totals raises (before ++ (a ∷ rest) ∷ after)) n) same_t
            h.goes) in
      let st = subst (Stays (total holds rest) r t) e (
        lan_run-Stays c m (total holds rest) r t h.cut h.waiting h.kept a
          (omega (arith, h.shut, sum shuts)) (omega (arith, w.1.0.0)) go not_last
          (omega (arith, k.0, k.1))) in
      let now = λ (f : Access → ℕ). totals-split f before after xs rest in
      let now_r : totals raises (before ++ (xs ++ rest) ∷ after) ≡ total raises xs + r =
        omega (arith, now raises) in
      let now_t : totals tries (before ++ (xs ++ rest) ∷ after) ≡ total tries xs + t =
        omega (arith, now tries) in
      record {
        cut = st.0;
        waiting = st.1;
        kept = st.2;
        shut = omega (arith, st.3, now shuts, sum shuts, h.shut);
        backed =
            AllBacked-append before ((xs ++ rest) ∷ after) w.0
              (IsBacked-append xs rest st.4 w.1.0.1, w.1.1);
        goes = rw (now_r, now_t) st.5;
      }

Step-IsStuck : (s s' : LanSystem) → LanStep s s' → AllCounted s → IsStuck s → IsStuck s'
Step-IsStuck s s' (begins xs m b e) k h = subst IsStuck (sym e) (Begins-IsStuck s m xs b h)
Step-IsStuck s s' (goes_on before after a rest c m xs t e q) k h =
    let at : List (List Access) → LanSystem = λ ts. record { conn = s.conn; threads = ts } in
    subst IsStuck (sym q) (
      goes_on-IsStuck s.conn before after a rest (subst (λ ts. AllCounted (at ts)) t k)
        (subst (λ ts. IsStuck (at ts)) t h) c m xs e)

Steps-IsStuck : (s s' : LanSystem) → LanSteps s s' → AllCounted s → IsStuck s → IsStuck s'
Steps-IsStuck s s' (stays e) k h = subst IsStuck (sym e) h
Steps-IsStuck s s'' (steps_on {s' = s'} steps step small) k h =
    Step-IsStuck s' s'' step (Steps-AllCounted s s' steps k) (Steps-IsStuck s s' steps k h)

-- Let CLanClient, in a state that it can reach, be disconnected while packets wait in m_sendQ, with
-- no thread in a sendPost between its test of m_disconnect and WSASend, none in the release or on
-- the way to it behind the last reference, no RELEASE_PEND posted, a reference to give back behind
-- each thread in a trySend, before the post of a sendPend or behind the tests of SendPacket, and a
-- SEND_PEND that waits or a thread on the way to post one: then, in every interleaving of its
-- threads with fewer than 2^31 references at a time, m_ioCount stays above zero, packets stay in
-- the queue, RELEASE_PEND is never posted and no thread comes to the release, since trySend posts
-- SEND_PEND again each time.
pub never_released :
    (s s' : LanSystem)
    → LanSteps connect_session s
    → IsStuck s
    → LanSteps s s'
    → (0 < s'.conn.io_count)
      × (s'.conn.release_pends ≡ 0)
      × (0 < s'.conn.queued)
      × (totals shuts s'.threads ≡ 0)
never_released s s' start h steps =
    let k = Steps-AllCounted connect_session s start (refl, omega arith) in
    let k' = Steps-AllCounted s s' steps k in
    let h' = Steps-IsStuck s s' steps k h in
    (
      omega (arith, k'.0, posting-refs s'.conn s'.threads h'.backed h'.goes),
      h'.kept,
      h'.waiting,
      h'.shut,
    )

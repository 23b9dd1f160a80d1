-- ===== src/Session/Reach.antt =====
-- The sessions that the server can reach, from a slot that was just made.
use chat_server_mt.Base.{
  ℕ, ◌+◌, ◌≤◌, ◌≡◌, ◌∙◌, ap, sym, subst, none, some, List, [], ◌∷◌, ◌++◌, arith,
}
use chat_server_mt.Session.{Session, Act, Thread, Choice}
use chat_server_mt.Session.Run.{After, run_act}
use chat_server_mt.Session.System.{
  System, Arrival, arrive, call, accept, recv_completes, send_completes, send_pended,
  release_pended, cancelled, Step, arrives, goes_on, init,
}
use chat_server_mt.Session.Weights.{
  total, totals, total-append, totals-append, refs, opening, closing, leaving, readers, joiners,
  watchers, needs, inner, senders, receivers, IsCovered, AllCovered,
}
use chat_server_mt.Session.Inv.{Held, add, Inv, IsSmall, Keeps, IsHeld}
use chat_server_mt.Session.Keeps.{act-Keeps}
use chat_server_mt.Session.Covered.{CoversAfter, act-CoversAfter}

abbrev pub held_of : List Thread → Held
held_of ts = record {
  r = totals refs ts;
  o = totals opening ts;
  c = totals closing ts;
  l = totals leaving ts;
  d = totals readers ts;
  j = totals joiners ts;
  w = totals watchers ts;
  n = totals needs ts;
  i = totals inner ts;
  s = totals senders ts;
  v = totals receivers ts;
}

module _ (before after : List Thread) (rest : Thread) where
  count_others : (f : Act → ℕ) → ℕ
  count_others f = totals f before + total f rest + totals f after

  pub others : Held
  unfolding count_others
  others = record {
    r = count_others refs;
    o = count_others opening;
    c = count_others closing;
    l = count_others leaving;
    d = count_others readers;
    j = count_others joiners;
    w = count_others watchers;
    n = count_others needs;
    i = count_others inner;
    s = count_others senders;
    v = count_others receivers;
  }

  count_with :
      (f : Act → ℕ) (t : Thread)
      → totals f (before ++ (t ++ rest) ∷ after) ≡ total f t + count_others f
  unfolding count_others
  count_with f t =
      omega (arith, totals-append f before ((t ++ rest) ∷ after), total-append f t rest)

  held_of_with : (t : Thread) → held_of (before ++ (t ++ rest) ∷ after) ≡ add t others
  unfolding others
  held_of_with t = λ k. record {
    r = count_with refs t k;
    o = count_with opening t k;
    c = count_with closing t k;
    l = count_with leaving t k;
    d = count_with readers t k;
    j = count_with joiners t k;
    w = count_with watchers t k;
    n = count_with needs t k;
    i = count_with inner t k;
    s = count_with senders t k;
    v = count_with receivers t k;
  }

readers-le-needs : (a : Act) → readers a ≤ needs a
readers-le-needs a = ground arith

joiners-le-needs : (a : Act) → joiners a ≤ needs a
joiners-le-needs a = ground arith

inner-le-needs : (a : Act) → inner a ≤ needs a + refs a
inner-le-needs a = ground arith

senders-le-inner : (a : Act) → senders a ≤ inner a
senders-le-inner a = ground arith

receivers-le-needs : (a : Act) → receivers a ≤ needs a
receivers-le-needs a = ground arith

module _ (f g : Act → ℕ) (below : (a : Act) → f a ≤ g a) where
  total-le : (t : Thread) → total f t ≤ total g t
  total-le [] = omega arith
  total-le (a ∷ t) = omega (arith, below a, total-le t)

  totals-le : (ts : List Thread) → totals f ts ≤ totals g ts
  totals-le [] = omega arith
  totals-le (t ∷ ts) = omega (arith, total-le t, totals-le ts)

total-add : (f g : Act → ℕ) (t : Thread) → total (λ a. f a + g a) t ≡ total f t + total g t
total-add f g [] = omega arith
total-add f g (a ∷ t) = omega (arith, total-add f g t)

totals-add :
    (f g : Act → ℕ) (ts : List Thread) → totals (λ a. f a + g a) ts ≡ totals f ts + totals g ts
totals-add f g [] = omega arith
totals-add f g (t ∷ ts) = omega (arith, total-add f g t, totals-add f g ts)

needs-under : (t : Thread) → IsCovered t → 1 ≤ total needs t → 1 ≤ total refs t
needs-under [] c h = h
needs-under (a ∷ t) c h = ground (arith, c.0, needs-under t c.1)

all-needs-under : (ts : List Thread) → AllCovered ts → 1 ≤ totals needs ts → 1 ≤ totals refs ts
all-needs-under [] c h = h
all-needs-under (t ∷ ts) c h = ground (arith, needs-under t c.0, all-needs-under ts c.1)

held_of-IsHeld : (ts : List Thread) → AllCovered ts → IsHeld (held_of ts)
held_of-IsHeld ts c = record {
  under = all-needs-under ts c;
  reading = totals-le readers needs readers-le-needs ts;
  joining = totals-le joiners needs joiners-le-needs ts;
  inside =
      omega (
        arith,
        totals-le inner (λ a. needs a + refs a) inner-le-needs ts,
        totals-add needs refs ts,
      );
  sending = totals-le senders inner senders-le-inner ts;
  receiving = totals-le receivers needs receivers-le-needs ts;
}

AllCovered-split : (ts us : List Thread) → AllCovered (ts ++ us) → AllCovered ts × AllCovered us
AllCovered-split [] us c = (tt, c)
AllCovered-split (t ∷ ts) us c = let rest = AllCovered-split ts us c.1 in ((c.0, rest.0), rest.1)

AllCovered-append : (ts us : List Thread) → AllCovered ts → AllCovered us → AllCovered (ts ++ us)
AllCovered-append [] us c d = d
AllCovered-append (t ∷ ts) us c d = (c.0, AllCovered-append ts us c.1 d)

-- A thread that arrives.
abbrev Welcomes : Held → After → Type 0
Welcomes h none = Unit {0}
Welcomes h (some (m, t)) = Inv m (add t h) × IsCovered t

arrive-Welcomes : (a : Arrival) (m : Session) (h : Held) → Inv m h → Welcomes h (arrive a m)
unfolding arrive
arrive-Welcomes (call r) m h v = ground (arith, v)
arrive-Welcomes (accept id) m h v = ground (arith, v)
arrive-Welcomes recv_completes m h v = ground (arith, v)
arrive-Welcomes send_completes m h v = ground (arith, v)
arrive-Welcomes send_pended m h v = ground (arith, v)
arrive-Welcomes release_pended m h v = ground (arith, v)
arrive-Welcomes cancelled m h v = ground (arith, v)

-- The invariant of all the threads, and fewer than 2^31 references at a time.
pub record IsValid (s : System) : Type 0 where
  pub inv : Inv s.mem (held_of s.threads)
  pub covered : AllCovered s.threads

abbrev pub IsSmallSystem : System → Type 0
IsSmallSystem s = IsSmall s.mem (held_of s.threads)

pub data Reach : System → Type 0 where
  start : Reach init
  later : {s t : System} → Reach s → Step s t → IsSmallSystem t → Reach t

module _ (s : System) (before after : List Thread) (act : Act) (rest : Thread)
    (e : s.threads ≡ before ++ (act ∷ rest) ∷ after) (v : IsValid s) (small : IsSmallSystem s) where
  same : held_of s.threads ≡ add (act ∷ []) (others before after rest)
  same = ap held_of e ∙ held_of_with before after rest (act ∷ [])

  in_order : AllCovered before × (IsCovered (act ∷ rest) × AllCovered after)
  in_order = AllCovered-split before ((act ∷ rest) ∷ after) (subst AllCovered e v.covered)

  pub goes_on-Keeps : (c : Choice) → Keeps (others before after rest) (run_act c act s.mem)
  goes_on-Keeps c =
      act-Keeps c s.mem (others before after rest) act (subst (λ h. Inv s.mem h) same v.inv)
        (subst IsHeld same (held_of-IsHeld s.threads v.covered))
        (subst (λ h. IsSmall s.mem h) same small)

  goes_on-IsValid :
      (c : Choice) {m : Session} {more : Thread}
      → run_act c act s.mem ≡ some (m, more)
      → IsSmallSystem (record { mem = m; threads = before ++ (more ++ rest) ∷ after })
      → IsValid (record { mem = m; threads = before ++ (more ++ rest) ∷ after })
  goes_on-IsValid c {m} {more} go few =
      let there = held_of_with before after rest more in
      record {
        inv =
            subst (λ h. Inv m h) (sym there)
              (subst (Keeps (others before after rest)) go (goes_on-Keeps c)
                (subst (λ h. IsSmall m h) there few));
        covered = AllCovered-append before ((more ++ rest) ∷ after) in_order.0 (
          subst (CoversAfter rest) go
              (act-CoversAfter c s.mem rest in_order.1.0.1 act in_order.1.0.0),
          in_order.1.1,
        );
      }

Step-IsValid : {s t : System} → Step s t → IsValid s → IsSmallSystem s → IsSmallSystem t → IsValid t
Step-IsValid {s} (arrives a e) v small few =
    let w =
      subst (Welcomes (held_of s.threads)) e (arrive-Welcomes a s.mem (held_of s.threads) v.inv) in
    record { inv = w.0; covered = (w.1, v.covered) }
Step-IsValid {s} (goes_on before after act rest c e go) v small few =
    goes_on-IsValid s before after act rest e v small c go few

init-IsValid : IsValid init
init-IsValid = record { inv = ground arith; covered = tt }

pub Reach-IsSmallSystem : {s : System} → Reach s → IsSmallSystem s
Reach-IsSmallSystem start = omega arith
Reach-IsSmallSystem (later r st few) = few

-- The invariant holds of every system that is reached.
pub Reach-IsValid : {s : System} → Reach s → IsValid s
Reach-IsValid start = init-IsValid
Reach-IsValid (later r st few) = Step-IsValid st (Reach-IsValid r) (Reach-IsSmallSystem r) few

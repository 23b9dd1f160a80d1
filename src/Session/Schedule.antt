-- ===== src/Session/Schedule.antt =====
-- Interleavings that can be run: the thread that arrived last goes on first.
use chat_server_mt.Base.{◌+◌, ◌^◌, ◌≡◌, refl, ap, Option, none, some, List, [], ◌∷◌, ◌++◌, dec_lt}
use chat_server_mt.Session.{Act, Thread, Choice}
use chat_server_mt.Session.Run.{After, run_act}
use chat_server_mt.Session.System.{System, Arrival, arrive, Step, arrives, goes_on, init}
use chat_server_mt.Session.Weights.{totals, refs}
use chat_server_mt.Session.Inv.{pending}
use chat_server_mt.Session.Reach.{Reach, start, later}

pub data Move : Type 0 where
  enters : Arrival → Move
  runs : Choice → Move

-- Where the first thread stands that has something to do.
record Spot (ts : List Thread) : Type 0 where
  before : List Thread
  act : Act
  rest : Thread
  after : List Thread
  same : ts ≡ before ++ (act ∷ rest) ∷ after

skip : (t : Thread) {ts : List Thread} → Option (Spot ts) → Option (Spot (t ∷ ts))
skip t none = none
skip t (some p) = some (record {
  before = t ∷ p.before;
  act = p.act;
  rest = p.rest;
  after = p.after;
  same = ap (λ ts. t ∷ ts) p.same;
})

spot : (ts : List Thread) → Option (Spot ts)
unfolding skip
spot [] = none
spot ([] ∷ ts) = skip [] (spot ts)
spot ((a ∷ t) ∷ ts) = some (record { before = []; act = a; rest = t; after = ts; same = refl })

module _ (s : System) where
  Next : Type 0
  Next = Option ((t : System) × Step s t)

  has_arrived : (a : Arrival) (o : After) → arrive a s.mem ≡ o → Next
  unfolding Next
  has_arrived a none e = none
  has_arrived a (some (m, t)) e = some (record { mem = m; threads = t ∷ s.threads }, arrives a e)

  has_run : (p : Spot s.threads) (c : Choice) (o : After) → run_act c p.act s.mem ≡ o → Next
  unfolding Next
  has_run p c none e = none
  has_run p c (some (m, more)) e = some (
    record { mem = m; threads = p.before ++ (more ++ p.rest) ∷ p.after },
    goes_on p.before p.after p.act p.rest c p.same e,
  )

  runs_at : Choice → Option (Spot s.threads) → Next
  unfolding Next has_run
  runs_at c none = none
  runs_at c (some p) = has_run p c (run_act c p.act s.mem) refl

  next : Move → Next
  unfolding Next has_arrived runs_at spot
  next (enters a) = has_arrived a (arrive a s.mem) refl
  next (runs c) = runs_at c (spot s.threads)

abbrev pub Reached : Type 0
Reached = (s : System) × Reach s

then_next : (r : Reached) → Next r.0 → Option Reached
unfolding Next
then_next r none = none
then_next r (some (t, st)) = elim (dec_lt (totals refs t.threads + pending t.mem) (2 ^ 31)) [
  | yes small ↦ some (t, later r.1 st small)
  | no _ ↦ none
]

follow : List Move → Option Reached → Option Reached
unfolding then_next next
follow moves none = none
follow [] (some r) = some r
follow (m ∷ moves) (some r) = follow moves (then_next r (next r.0 m))

or_start : Option Reached → Reached
or_start none = (init, start)
or_start (some r) = r

-- The state behind the moves from the start, and the start when one of them cannot be done.
unfoldable pub play : List Move → Reached
unfolding or_start follow
play moves = or_start (follow moves (some (init, start)))

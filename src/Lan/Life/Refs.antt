-- ===== src/Lan/Life/Refs.antt =====
-- What `io_count` counts, in every interleaving.
use chat_server_mt.Base.{
  ℕ, ◌+◌, ◌^◌, ◌≤◌, ◌<◌, ◌≡◌, ◌≢◌, refl, ap, subst, sym, none, some, List, [], ◌∷◌, ◌++◌, arith,
}
use chat_server_mt.Lan.Life.{
  Connection, Access, Chance, counting, update_io_count, lan_run, lan_count, lan_disconnect,
  lan_recv_post, lan_post, lan_pend, lan_leave, lan_call, lan_complete, increment, Then, cutting,
  receiving, sending, pending, leaving, calling, completing,
}
use chat_server_mt.Lan.Life.System.{
  LanSystem, total, totals, totals-append, totals-split, holds, in_port, lan_refs, Begins, calls,
  disconnects, receives, sent, pends, releases, cancels, LanStep, begins, goes_on, LanSteps, stays,
  steps_on, connect_session,
}

-- The references behind an access, when `r` are held by the others.
abbrev IsCounted : ℕ → Then → Type 0
IsCounted r none = Unit {0}
IsCounted r (some (m, xs)) =
    in_port m + total holds xs + r < 2 ^ 31 → m.io_count ≡ in_port m + total holds xs + r

lan_run-IsCounted :
    (c : Chance) (a : Access) (m : Connection) (r : ℕ)
    → m.io_count ≡ in_port m + holds a + r
    → m.io_count < 2 ^ 31
    → IsCounted r (lan_run c a m)
unfolding lan_run lan_count lan_disconnect lan_recv_post lan_post lan_pend lan_leave lan_call
    lan_complete increment
lan_run-IsCounted c (counting a) m r h b = ground (arith, h, b)
lan_run-IsCounted c (cutting a) m r h b = ground (arith, h, b)
lan_run-IsCounted c (receiving a) m r h b = ground (arith, h, b)
lan_run-IsCounted c (sending a) m r h b = ground (arith, h, b)
lan_run-IsCounted c (pending a) m r h b = ground (arith, h, b)
lan_run-IsCounted c (leaving a) m r h b = ground (arith, h, b)
lan_run-IsCounted c (calling a) m r h b = ground (arith, h, b)
lan_run-IsCounted c (completing a) m r h b = ground (arith, h, b)

-- The count is that of the references, and small.
abbrev pub AllCounted : LanSystem → Type 0
AllCounted s = (s.conn.io_count ≡ lan_refs s) × (lan_refs s < 2 ^ 31)

begins_lem :
    (m m' : Connection) (xs : List Access) (r : ℕ)
    → Begins m xs m'
    → m.io_count ≡ in_port m + r
    → m'.io_count ≡ in_port m' + (total holds xs + r)
begins_lem m m' xs r calls h = omega (arith, h)
begins_lem m m' xs r disconnects h = omega (arith, h)
begins_lem m m' xs r (receives n k e) h = omega (arith, h, e)
begins_lem m m' xs r (sent n k e) h = omega (arith, h, e)
begins_lem m m' xs r (pends k e) h = omega (arith, h, e)
begins_lem m m' xs r (releases k e) h = omega (arith, h, e)
begins_lem m m' xs r (cancels k e) h = omega (arith, h, e)

goes_on_lem :
    (m m' : Connection) (before after : List (List Access)) (a : Access) (rest : List Access)
    (c : Chance) (xs : List Access)
    → lan_run c a m ≡ some (m', xs)
    → AllCounted (record { conn = m; threads = before ++ (a ∷ rest) ∷ after })
    → lan_refs (record { conn = m'; threads = before ++ (xs ++ rest) ∷ after }) < 2 ^ 31
    → m'.io_count ≡ lan_refs (record { conn = m'; threads = before ++ (xs ++ rest) ∷ after })
goes_on_lem m m' before after a rest c xs e h small =
    let r : ℕ = totals holds before + total holds rest + totals holds after in
    let was = totals-split holds before after (a ∷ []) rest in
    let is = totals-split holds before after xs rest in
    let step =
      subst (IsCounted r) e
        (lan_run-IsCounted c a m r (omega (arith, h.0, was)) (omega (arith, h.0, h.1))) in
    omega (arith, step (omega (arith, small, is)), is)

pub Step-AllCounted :
    (s s' : LanSystem) → LanStep s s' → lan_refs s' < 2 ^ 31 → AllCounted s → AllCounted s'
Step-AllCounted s s' (begins xs m b e) small h = subst AllCounted (sym e) (
  begins_lem s.conn m xs (totals holds s.threads) b h.0,
  subst (λ (q : LanSystem). lan_refs q < 2 ^ 31) e small,
)
Step-AllCounted s s' (goes_on before after a rest c m xs t e q) small h =
    let few = subst (λ (q : LanSystem). lan_refs q < 2 ^ 31) q small in
    let at = subst (λ ts. AllCounted (record { conn = s.conn; threads = ts })) t h in
    subst AllCounted (sym q) (goes_on_lem s.conn m before after a rest c xs e at few, few)

pub Steps-AllCounted : (s s' : LanSystem) → LanSteps s s' → AllCounted s → AllCounted s'
Steps-AllCounted s s' (stays e) h = subst AllCounted (sym e) h
Steps-AllCounted s s'' (steps_on {s' = s'} steps step small) h =
    Step-AllCounted s' s'' step small (Steps-AllCounted s s' steps h)

-- T
pub lan_count-refs :
    (s : LanSystem) (before after : List (List Access)) (rest : List Access)
    → LanSteps connect_session s
    → s.threads ≡ before ++ (counting update_io_count ∷ rest) ∷ after
    → (s.conn.io_count ≡ lan_refs s) × (lan_count update_io_count s.conn ≢ none)
unfolding lan_count
lan_count-refs s before after rest steps e =
    let h = Steps-AllCounted connect_session s steps (refl, omega arith) in
    let one = ap (totals holds) e in
    let held = totals-append holds before ((counting update_io_count ∷ rest) ∷ after) in
    let some_held : 1 ≤ lan_refs s = omega (arith, one, held) in
    (h.0, λ crash. ground (arith, h, some_held, crash))

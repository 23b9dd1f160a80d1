-- ===== src/Stack/History.antt =====
-- What the threads do to a stack together, and the list of values that they see.
use chat_server_mt.Base.{
  ℕ, Option, some, none, ap, sym, subst, ◌==◌, if◌then◌else◌, ◌<◌, ◌≡◌, refl, List, [], ◌∷◌, ◌++◌,
  arith, map,
}
use chat_server_mt.Stack.{
  Shared, push_data, push_top, push_next, push_cas, push_size, pop_top, pop_next, pop_cas, pop_size,
  pop_data, pop_free, Pc, pushing, popping, finished, Label, quiet, empty, pushes, pops, run_pc,
  run_push, run_pop,
}
use chat_server_mt.Stack.Threads.{System, times_in, owns, total, Linked, IsRecent}
use chat_server_mt.Stack.Inv.{Inv, Keeps, Follows}
use chat_server_mt.Stack.Rebuild.{Inv-Around, Around, Around-Inv}
use chat_server_mt.Stack.Push.{
  push_data-Keeps, push_top-Keeps, push_next-Keeps, push_cas-Keeps, push_size-Keeps,
}
use chat_server_mt.Stack.Pop.{
  pop_top-Keeps, pop_next-Keeps, pop_cas-Keeps, pop_size-Keeps, pop_data-Keeps, pop_free-Keeps,
}

-- One step of one thread.
run_pc-Keeps :
    (m : Shared) (before after : List Pc) (xs : List ℕ) (pc : Pc)
    → Around m xs before pc after
    → IsRecent m pc
    → Keeps xs m before after (run_pc pc m)
unfolding run_pc run_push run_pop
run_pc-Keeps m before after xs (pushing (push_data a v)) w r =
    push_data-Keeps m xs before after a v w
run_pc-Keeps m before after xs (pushing (push_top a v)) w r = push_top-Keeps m xs before after a v w
run_pc-Keeps m before after xs (pushing (push_next a v o t)) w r =
    push_next-Keeps m xs before after a v o t w
run_pc-Keeps m before after xs (pushing (push_cas a v o t)) w r =
    push_cas-Keeps m xs before after a v o t w r
run_pc-Keeps m before after xs (pushing push_size) w r = push_size-Keeps m xs before after w
run_pc-Keeps m before after xs (popping pop_top) w r = pop_top-Keeps m before after xs w
run_pc-Keeps m before after xs (popping (pop_next a t)) w r = pop_next-Keeps m before after xs a t w
run_pc-Keeps m before after xs (popping (pop_cas a t n)) w r =
    pop_cas-Keeps m before after xs a t n w r
run_pc-Keeps m before after xs (popping (pop_size a v)) w r = pop_size-Keeps m before after xs a v w
run_pc-Keeps m before after xs (popping (pop_data a v)) w r = pop_data-Keeps m before after xs a v w
run_pc-Keeps m before after xs (popping (pop_free a v)) w r = pop_free-Keeps m before after xs a v w
run_pc-Keeps m before after xs finished w r = (xs, Around-Inv m xs before finished after w, refl)

-- A node that the pool may hand out: no thread has it and it is not in the stack.
abbrev pub IsFree : System → ℕ → Type 0
IsFree s a =
    (0 < a)
    × (total (owns a) s.threads ≡ 0)
    × ((xs : List ℕ) → Linked s.mem.next s.mem.top xs → times_in a xs ≡ 0)

-- A call begins, or one thread makes one access.
pub data Step (s : System) (l : Label) (s' : System) : Type 0 where
  begins_push :
      (a v : ℕ)
      → IsFree s a
      → l ≡ quiet
      → s' ≡ record { mem = s.mem; threads = pushing (push_data a v) ∷ s.threads }
      → Step s l s'
  begins_pop :
      l ≡ quiet → s' ≡ record { mem = s.mem; threads = popping pop_top ∷ s.threads } → Step s l s'
  goes_on :
      (before after : List Pc) (pc : Pc)
      → s.threads ≡ before ++ pc ∷ after
      → IsRecent s.mem pc
      → l ≡ (run_pc pc s.mem).0
      → s' ≡ record { mem = (run_pc pc s.mem).1; threads = before ++ (run_pc pc s.mem).2 ∷ after }
      → Step s l s'

-- A new stack, its memory as it may be.
abbrev pub new_stack : (ℕ → ℕ) → (ℕ → ℕ) → System
new_stack next cell = record {
  mem = record { top = 0; tag = 0; next = next; cell = cell; size = 0 };
  threads = [];
}

-- What the threads have done since the stack was made, the latest first.
pub data History : List Label → System → Type 0 where
  made : {s : System} (next cell : ℕ → ℕ) → s ≡ new_stack next cell → History [] s
  did :
      {ls : List Label} {s : System} {l : Label} {s' : System}
      → History ls s
      → Step s l s'
      → History (l ∷ ls) s'

-- A list of values under the labels.
unfoldable pub sees : Label → List ℕ → Option (List ℕ)
sees quiet vs = some vs
sees empty [] = some []
sees empty (v ∷ vs) = none
sees (pushes v) vs = some (v ∷ vs)
sees (pops v) [] = none
sees (pops v) (w ∷ ws) = if v == w then some ws else none

unfoldable pub then_sees : Label → Option (List ℕ) → Option (List ℕ)
unfolding sees
then_sees l none = none
then_sees l (some vs) = sees l vs

unfoldable pub replay : List Label → Option (List ℕ)
unfolding then_sees
replay [] = some []
replay (l ∷ ls) = then_sees l (replay ls)

sees-Follows : (l : Label) (vs ws : List ℕ) → Follows l vs ws → sees l vs ≡ some ws
unfolding sees
sees-Follows quiet vs ws f = ap some (sym f)
sees-Follows empty vs ws f = rw (f.0, f.1) refl
sees-Follows (pushes v) vs ws f = ap some (sym f)
sees-Follows (pops v) vs ws f = rw f (ground arith)

-- The invariant again, for nodes that hold what the label says.
abbrev Advances : System → List ℕ → Label → System → Type 0
Advances s xs l s' =
    (ys : List ℕ) × Inv s'.mem ys s'.threads × Follows l (map s.mem.cell xs) (map s'.mem.cell ys)

advance :
    (s s' s'' : System) (l l' : Label) (xs : List ℕ)
    → l ≡ l'
    → s' ≡ s''
    → Advances s xs l' s''
    → Advances s xs l s'
advance s s' s'' l l' xs p q h =
    subst (λ x. Advances s xs x s') (sym p) (subst (Advances s xs l') (sym q) h)

begins_push-Inv :
    (s : System) (xs : List ℕ) (a v : ℕ)
    → IsFree s a
    → Inv s.mem xs s.threads
    → Inv s.mem xs (pushing (push_data a v) ∷ s.threads)
begins_push-Inv s xs a v free i = record {
  linked = i.linked;
  apart = λ b. ground (arith, i.apart b, free.1, free.2 xs i.linked);
  ok = (free.0, i.ok);
  sized = omega (arith, i.sized);
}

begins_pop-Inv :
    (s : System) (xs : List ℕ) → Inv s.mem xs s.threads → Inv s.mem xs (popping pop_top ∷ s.threads)
begins_pop-Inv s xs i = record {
  linked = i.linked;
  apart = λ b. omega (arith, i.apart b);
  ok = (tt, i.ok);
  sized = omega (arith, i.sized);
}

Step-Inv :
    (s s' : System) (l : Label) (xs : List ℕ)
    → Inv s.mem xs s.threads
    → Step s l s'
    → Advances s xs l s'
Step-Inv s s' l xs i (begins_push a v free p q) =
    advance s s' _ l _ xs p q (xs, begins_push-Inv s xs a v free i, refl)
Step-Inv s s' l xs i (begins_pop p q) = advance s s' _ l _ xs p q (xs, begins_pop-Inv s xs i, refl)
Step-Inv s s' l xs i (goes_on before after pc e r p q) =
    let w = Inv-Around s.mem xs before pc after (subst (Inv s.mem xs) e i) in
    advance s s' _ l _ xs p q (run_pc-Keeps s.mem before after xs pc w r)

-- The invariant holds of all that the threads can reach.
pub History-Inv :
    (ls : List Label) (s : System)
    → History ls s
    → (xs : List ℕ) × Inv s.mem xs s.threads × (replay ls ≡ some (map s.mem.cell xs))
unfolding replay then_sees
History-Inv ls s (made next cell e) = (
  [],
  subst (λ (q : System). Inv q.mem [] q.threads) (sym e)
      (record { linked = refl; apart = λ a. omega arith; ok = tt; sized = refl }),
  refl,
)
History-Inv ls s' (did {s = s} {l = l} h step) =
    let before = History-Inv _ s h in
    let xs = before.0 in
    let now = Step-Inv s s' l xs before.1 step in
    (now.0, now.1, rw before.2 (sees-Follows l (map s.mem.cell xs) (map s'.mem.cell now.0) now.2))

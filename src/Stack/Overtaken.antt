-- ===== src/Stack/Overtaken.antt =====
-- When an exchange of the top succeeds.
use chat_server_mt.Base.{
  ℕ, ◌+◌, ◌≡◌, Option, some, none, refl, ap, subst, ◌∙◌, List, [], ◌∷◌, ◌++◌, ◌==◌, if◌then◌else◌,
  arith,
}
use chat_server_mt.Stack.{
  Shared, push_cas, pop_cas, Pc, pushing, popping, Label, quiet, empty, pushes, pops, run_push,
  run_pop, run_pc,
}
use chat_server_mt.Stack.Threads.{System, IsRecent}
use chat_server_mt.Stack.Inv.{Ok, AllOk}
use chat_server_mt.Stack.History.{
  History, made, did, Step, begins_push, begins_pop, goes_on, History-Inv,
}
use chat_server_mt.Stack.Linear.{AllOk-one}

-- Whether a step changes the top.
abbrev pub change : Label → ℕ
change quiet = 0
change empty = 0
change (pushes v) = 1
change (pops v) = 1

abbrev pub changes : List Label → ℕ
changes [] = 0
changes (l ∷ ls) = change l + changes ls

run_pc-tag : (m : Shared) (pc : Pc) → (run_pc pc m).1.tag ≡ change (run_pc pc m).0 + m.tag
unfolding run_pc run_push run_pop
run_pc-tag m pc = ground arith

Step-tag : (s s' : System) (l : Label) → Step s l s' → s'.mem.tag ≡ change l + s.mem.tag
Step-tag s s' l (begins_push a v f p q) = rw (p, q) (omega arith)
Step-tag s s' l (begins_pop p q) = rw (p, q) (omega arith)
Step-tag s s' l (goes_on b a pc e r p q) = rw (p, q) (run_pc-tag s.mem pc)

-- The tag counts the changes of the top.
History-tag : (ls : List Label) (s : System) → History ls s → s.mem.tag ≡ changes ls
History-tag ls s (made next cell e) = rw e refl
History-tag ls s' (did {ls = ks} {s = s} {l = l} h step) =
    Step-tag s s' l step ∙ ap (λ n. change l + n) (History-tag ks s h)

-- The tag that a thread is about to compare.
abbrev pub compares : Pc → Option ℕ
compares (pushing (push_cas a v o t)) = some t
compares (popping (pop_cas a t n)) = some t
compares _ = none

exchange-change :
    (m : Shared) (pc : Pc) (t : ℕ)
    → compares pc ≡ some t
    → Ok m pc
    → IsRecent m pc
    → change (run_pc pc m).0 ≡ (if t == m.tag then 1 else 0)
unfolding run_pc run_push run_pop
exchange-change m pc t c ok r = ground (arith, c, ok, r)

-- Under the same assumptions the exchange of a Push or a Pop takes effect exactly when no push and
-- no pop has taken effect since the thread read the top: a thread that must try again was overtaken
-- by another one that got ahead, and an address that came back with another tag is not taken for
-- the old top.
pub exchange_lem :
    (ls : List Label) (s : System) (before after : List Pc) (pc : Pc) (t : ℕ)
    → History ls s
    → s.threads ≡ before ++ pc ∷ after
    → compares pc ≡ some t
    → IsRecent s.mem pc
    → change (run_pc pc s.mem).0 ≡ (if t == changes ls then 1 else 0)
exchange_lem ls s before after pc t h e c r =
    let w = History-Inv ls s h in
    let ok = AllOk-one s.mem before pc after (subst (AllOk s.mem) e (w.1).ok) in
    exchange-change s.mem pc t c ok r ∙ ap (λ n. if t == n then 1 else 0) (History-tag ls s h)

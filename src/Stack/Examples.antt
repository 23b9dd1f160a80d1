-- ===== src/Stack/Examples.antt =====
-- Runs of the stack at concrete inputs.
use chat_server_mt.Base.{
  ℕ, ◌+◌, ◌%◌, ◌^◌, ◌≤◌, ◌≡◌, some, refl, ap, List, [], ◌∷◌, arith, length, map,
}
use chat_server_mt.Stack.{
  push_data, push_top, push_next, push_cas, push_size, pop_top, pop_next, pop_cas, pop_size,
  pop_data, pop_free, Pc, pushing, popping, finished, Label, quiet, pushes, pops, run_push, run_pop,
  run_pc, update,
}
use chat_server_mt.Stack.Threads.{System, times_in, owns, total, Linked, IsRecent}
use chat_server_mt.Stack.Inv.{enters, leaves}
use chat_server_mt.Stack.History.{
  History, made, did, begins_push, begins_pop, goes_on, replay, new_stack,
}
use chat_server_mt.Stack.Pop.{Linked-null}
use chat_server_mt.Stack.Linear.{stack-refines, nodes_kept, pop-reads}
use chat_server_mt.Stack.Overtaken.{change, exchange_lem}

-- The thread that began last makes its next access.
goes :
    {ls : List Label} {s : System} (pc : Pc) (rest : List Pc)
    → History ls s
    → s.threads ≡ pc ∷ rest
    → IsRecent s.mem pc
    → History
        ((run_pc pc s.mem).0 ∷ ls)
        (record { mem = (run_pc pc s.mem).1; threads = (run_pc pc s.mem).2 ∷ rest })
goes pc rest h e r = did h (goes_on [] rest pc e r refl refl)

abbrev zeros : ℕ → ℕ
zeros a = 0

abbrev pushing_seven : System
pushing_seven = record {
  mem = record { top = 0; tag = 0; next = update zeros 5 0; cell = update zeros 5 7; size = 0 };
  threads = pushing (push_cas 5 7 0 0) ∷ [];
}

pushing_seven-History : History (quiet ∷ quiet ∷ quiet ∷ quiet ∷ []) pushing_seven
unfolding run_pc run_push update
pushing_seven-History =
    let h0 = made {s = new_stack zeros zeros} zeros zeros refl in
    let h1 = did h0 (
      begins_push 5 7 (omega arith, refl, λ xs l. ap (times_in 5) (Linked-null zeros 0 xs l refl))
        refl refl) in
    let h2 = goes (pushing (push_data 5 7)) [] h1 refl tt in
    let h3 = goes (pushing (push_top 5 7)) [] h2 refl tt in
    goes (pushing (push_next 5 7 0 0)) [] h3 refl tt

abbrev holding_seven : System
holding_seven = record {
  mem = record { top = 5; tag = 1; next = update zeros 5 0; cell = update zeros 5 7; size = 1 };
  threads = popping pop_top ∷ finished ∷ [];
}

holding_seven-History :
    History (quiet ∷ quiet ∷ pushes 7 ∷ quiet ∷ quiet ∷ quiet ∷ quiet ∷ []) holding_seven
unfolding run_pc run_push update
holding_seven-History =
    let h1 = goes (pushing (push_cas 5 7 0 0)) [] pushing_seven-History refl (omega arith) in
    let h2 = goes (pushing push_size) [] h1 refl tt in did h2 (begins_pop refl refl)

abbrev popping_seven : System
popping_seven = record {
  mem = record { top = 0; tag = 2; next = update zeros 5 0; cell = update zeros 5 7; size = 0 };
  threads = popping (pop_data 5 7) ∷ finished ∷ [];
}

popping_seven-History :
    History
      (quiet
        ∷ pops 7
        ∷ quiet
        ∷ quiet
        ∷ quiet
        ∷ quiet
        ∷ pushes 7
        ∷ quiet
        ∷ quiet
        ∷ quiet
        ∷ quiet
        ∷ [])
      popping_seven
unfolding run_pc run_push run_pop update
popping_seven-History =
    let h4 = goes (popping pop_top) (finished ∷ []) holding_seven-History refl tt in
    let h5 = goes (popping (pop_next 5 1)) (finished ∷ []) h4 refl tt in
    let h6 = goes (popping (pop_cas 5 1 0)) (finished ∷ []) h5 refl (omega arith) in
    goes (popping (pop_size 5 7)) (finished ∷ []) h6 refl tt

stack-refines_example :
    (xs : List ℕ) × Linked (update zeros 5 0) 5 xs
    × (replay (quiet ∷ quiet ∷ pushes 7 ∷ quiet ∷ quiet ∷ quiet ∷ quiet ∷ [])
        ≡ some (map (update zeros 5 7) xs))
stack-refines_example = stack-refines _ _ holding_seven-History

nodes_kept_example :
    (xs : List ℕ) × Linked (update zeros 5 0) 0 xs
    × ((a : ℕ) → times_in a xs + total (owns a) popping_seven.threads ≤ 1)
    × ((popping_seven.mem.size + total enters popping_seven.threads) % 2 ^ 64
        ≡ (length xs + total leaves popping_seven.threads) % 2 ^ 64)
nodes_kept_example = nodes_kept _ _ popping_seven-History

pop-reads_example :
    run_pop (pop_data 5 7) popping_seven.mem ≡ (quiet, popping_seven.mem, popping (pop_free 5 7))
pop-reads_example = pop-reads _ popping_seven [] (finished ∷ []) 5 7 popping_seven-History refl

exchange_lem_example :
    ◌≡◌ {A = ℕ} (change (run_pc (pushing (push_cas 5 7 0 0)) pushing_seven.mem).0) 1
exchange_lem_example =
    exchange_lem _ pushing_seven [] [] (pushing (push_cas 5 7 0 0)) 0 pushing_seven-History refl
      refl (omega arith)

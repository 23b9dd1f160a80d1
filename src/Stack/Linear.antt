-- ===== src/Stack/Linear.antt =====
-- What the clients of the stack see of Push and Pop.
use chat_server_mt.Base.{
  ℕ, ◌+◌, ◌%◌, ◌^◌, ◌≤◌, ◌≡◌, some, ap, subst, List, [], ◌∷◌, ◌++◌, length, map,
}
use chat_server_mt.Stack.{Shared, pop_data, pop_free, Pc, popping, Label, quiet, run_pop}
use chat_server_mt.Stack.Threads.{System, times_in, owns, total, Linked}
use chat_server_mt.Stack.Inv.{Ok, AllOk, enters, leaves}
use chat_server_mt.Stack.History.{History, History-Inv, replay}

-- Whatever any number of threads do to a lock-free stack by Push and Pop, one access to the shared
-- memory at a time, the nodes from the top are a list that ends, and the pushes and pops that have
-- taken effect, with a Pop that found the stack empty, replayed in their order on a plain list of
-- values, are all possible and give the values in these nodes; it is assumed that fewer than 2^17
-- changes of the top come between the read and the exchange of one thread, and that the pool gives
-- Push a node that is neither in the stack nor held by a thread.
pub stack-refines :
    (ls : List Label) (s : System)
    → History ls s
    → (xs : List ℕ) × Linked s.mem.next s.mem.top xs × (replay ls ≡ some (map s.mem.cell xs))
stack-refines ls s h = let w = History-Inv ls s h in (w.0, (w.1).linked, w.2)

-- Under the same assumptions each node is at most once in the stack or held by one thread, by its
-- Push before the exchange or its Pop behind it, and _size with the pushes that have still to count
-- is, modulo 2^64, the number of nodes in the stack with the pops that have still to count.
pub nodes_kept :
    (ls : List Label) (s : System)
    → History ls s
    → (xs : List ℕ) × Linked s.mem.next s.mem.top xs
      × ((a : ℕ) → times_in a xs + total (owns a) s.threads ≤ 1)
      × ((s.mem.size + total enters s.threads) % 2 ^ 64
          ≡ (length xs + total leaves s.threads) % 2 ^ 64)
nodes_kept ls s h = let w = History-Inv ls s h in (w.0, (w.1).linked, (w.1).apart, (w.1).sized)

pub AllOk-one :
    (m : Shared) (before : List Pc) (pc : Pc) (after : List Pc)
    → AllOk m (before ++ pc ∷ after)
    → Ok m pc
AllOk-one m [] pc after h = h.0
AllOk-one m (p ∷ ps) pc after h = AllOk-one m ps pc after h.1

-- Under the same assumptions a Pop that reads the data of its node behind the exchange reads the
-- value that stood in it when the exchange took the node off: no other thread has written to it
-- since.
pub pop-reads :
    (ls : List Label) (s : System) (before after : List Pc) (a v : ℕ)
    → History ls s
    → s.threads ≡ before ++ popping (pop_data a v) ∷ after
    → run_pop (pop_data a v) s.mem ≡ (quiet, s.mem, popping (pop_free a v))
unfolding run_pop
pop-reads ls s before after a v h e =
    let w = History-Inv ls s h in
    let same = AllOk-one s.mem before _ after (subst (AllOk s.mem) e (w.1).ok) in
    ap (λ x. (quiet, s.mem, popping (pop_free a x))) same

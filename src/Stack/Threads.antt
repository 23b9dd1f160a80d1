-- ===== src/Stack/Threads.antt =====
-- All the threads that work on one stack.
use chat_server_mt.Base.{ℕ, ◌+◌, ◌^◌, ◌<◌, ◌≡◌, List, [], ◌∷◌, ◌++◌, ◌==◌, if◌then◌else◌, arith}
use chat_server_mt.Stack.{
  Shared, push_data, push_top, push_next, push_cas, push_size, pop_top, pop_next, pop_cas, pop_size,
  pop_data, pop_free, Pc, pushing, popping, finished,
}

pub record System : Type 0 where
  pub mem : Shared
  pub threads : List Pc

abbrev pub times_in : ℕ → List ℕ → ℕ
times_in node [] = 0
times_in node (n ∷ nodes) = (if n == node then 1 else 0) + times_in node nodes

-- Whether the node is in the hands of a thread: its pusher before the exchange, its popper behind it.
abbrev pub owns : ℕ → Pc → ℕ
owns a (pushing (push_data b v)) = if b == a then 1 else 0
owns a (pushing (push_top b v)) = if b == a then 1 else 0
owns a (pushing (push_next b v o t)) = if b == a then 1 else 0
owns a (pushing (push_cas b v o t)) = if b == a then 1 else 0
owns a (pushing push_size) = 0
owns a (popping pop_top) = 0
owns a (popping (pop_next b t)) = 0
owns a (popping (pop_cas b t n)) = 0
owns a (popping (pop_size b v)) = if b == a then 1 else 0
owns a (popping (pop_data b v)) = if b == a then 1 else 0
owns a (popping (pop_free b v)) = if b == a then 1 else 0
owns a finished = 0

abbrev pub total : (Pc → ℕ) → List Pc → ℕ
total f [] = 0
total f (pc ∷ pcs) = f pc + total f pcs

pub total-append : (f : Pc → ℕ) (ps qs : List Pc) → total f (ps ++ qs) ≡ total f ps + total f qs
total-append f [] qs = omega arith
total-append f (p ∷ ps) qs = omega (arith, total-append f ps qs)

-- The nodes of the list that starts at an address.
abbrev pub Linked : (ℕ → ℕ) → ℕ → List ℕ → Type 0
Linked next a [] = a ≡ 0
Linked next a (x ∷ xs) = (a ≡ x) × (0 < x) × Linked next (next x) xs

-- No more than 2^17 - 1 changes of the top since the thread read it.
abbrev pub IsRecent : Shared → Pc → Type 0
IsRecent m (pushing (push_cas a v o t)) = m.tag < t + 2 ^ 17
IsRecent m (popping (pop_cas a t n)) = m.tag < t + 2 ^ 17
IsRecent m _ = Unit {0}

-- ===== src/Stack.antt =====
-- LockFreeStack.h: Push and Pop, one access to the shared memory at a time, by any number of
-- threads. LockFreePool.h has the same two loops in Free and Alloc. A pointer with its tag is an
-- address and a number. The tag of the model counts all changes of the top; the code keeps it in
-- the 17 bits above the address, so that its comparison is the one of the remainders.
pub mod Threads
pub mod Inv
pub mod Frame
pub mod Rebuild
pub mod Push
pub mod Pop
pub mod History
pub mod Linear
pub mod Overtaken
mod Examples
use chat_server_mt.Base.{ℕ, ◌+◌, ◌-◌, ◌%◌, ◌^◌, Bool, ◌&&◌, ◌==◌, if◌then◌else◌}

-- `next` and `cell` are the fields of the nodes by address, and 0 is the null pointer.
pub record Shared : Type 0 where
  pub top : ℕ
  pub tag : ℕ
  pub next : ℕ → ℕ
  pub cell : ℕ → ℕ
  pub size : ℕ

-- Push with its node and its value, behind the Alloc, and then with `old_top`.
pub data PushPc : Type 0 where
  push_data push_top : ℕ → ℕ → PushPc
  push_next push_cas : ℕ → ℕ → ℕ → ℕ → PushPc
  push_size : PushPc

-- Pop with `old_top`, then with `next`, and behind the exchange with the node. The last number is
-- the value that stood in it when it was taken off.
pub data PopPc : Type 0 where
  pop_top : PopPc
  pop_next : ℕ → ℕ → PopPc
  pop_cas : ℕ → ℕ → ℕ → PopPc
  pop_size pop_data pop_free : ℕ → ℕ → PopPc

pub data Pc : Type 0 where
  pushing : PushPc → Pc
  popping : PopPc → Pc
  finished : Pc

-- What a step is for a client of the stack.
pub data Label : Type 0 where
  quiet empty : Label
  pushes pops : ℕ → Label

unfoldable pub update : (ℕ → ℕ) → ℕ → ℕ → ℕ → ℕ
update f a v b = if b == a then v else f b

-- `old_top == _top`, as InterlockedCompareExchangePointer compares them.
abbrev pub is_top : ℕ → ℕ → Shared → Bool
is_top a t m = a == m.top && t % 2 ^ 17 == m.tag % 2 ^ 17

abbrev pub Outcome : Type 0
Outcome = Label × Shared × Pc

unfoldable pub run_push : PushPc → Shared → Outcome
run_push (push_data a v) m = (quiet, record m { cell = update m.cell a v }, pushing (push_top a v))
run_push (push_top a v) m = (quiet, m, pushing (push_next a v m.top m.tag))
run_push (push_next a v o t) m =
    (quiet, record m { next = update m.next a o }, pushing (push_cas a v o t))
run_push (push_cas a v o t) m =
    if is_top o t m
    then (pushes v, record m { top = a; tag = m.tag + 1 }, pushing push_size)
    else (quiet, m, pushing (push_top a v))
run_push push_size m = (quiet, record m { size = (m.size + 1) % 2 ^ 64 }, finished)

unfoldable pub run_pop : PopPc → Shared → Outcome
run_pop pop_top m =
    if m.top == 0 then (empty, m, finished) else (quiet, m, popping (pop_next m.top m.tag))
run_pop (pop_next a t) m = (quiet, m, popping (pop_cas a t (m.next a)))
run_pop (pop_cas a t n) m =
    if is_top a t m
    then (pops (m.cell a), record m { top = n; tag = m.tag + 1 }, popping (pop_size a (m.cell a)))
    else (quiet, m, popping pop_top)
run_pop (pop_size a v) m =
    (quiet, record m { size = (m.size + (2 ^ 64 - 1)) % 2 ^ 64 }, popping (pop_data a v))
-- `*data = old_top_addr->data`.
run_pop (pop_data a v) m = (quiet, m, popping (pop_free a (m.cell a)))
run_pop (pop_free a v) m = (quiet, m, finished)

unfoldable pub run_pc : Pc → Shared → Outcome
unfolding run_push run_pop
run_pc (pushing pc) m = run_push pc m
run_pc (popping pc) m = run_pop pc m
run_pc finished m = (quiet, m, finished)

-- ===== src/Stack/Frame.antt =====
-- What a change of the shared memory leaves of the other threads' facts.
use chat_server_mt.Base.{ℕ, ◌+◌, ◌<◌, ◌≡◌, ◌≢◌, List, [], ◌∷◌, arith}
use chat_server_mt.Stack.{
  Shared, push_data, push_top, push_next, push_cas, push_size, pop_top, pop_next, pop_cas, pop_size,
  pop_data, pop_free, Pc, pushing, popping, finished, update,
}
use chat_server_mt.Stack.Threads.{owns, total}
use chat_server_mt.Stack.Inv.{Ok, AllOk}

-- A change of the top with a new tag.
pub exchange-Ok :
    (m : Shared) (a : ℕ) (pc : Pc) → Ok m pc → Ok (record m { top = a; tag = m.tag + 1 }) pc
exchange-Ok m a (pushing (push_data b v)) h = h
exchange-Ok m a (pushing (push_top b v)) h = h
exchange-Ok m a (pushing (push_next b v o t)) h = ground (arith, h)
exchange-Ok m a (pushing (push_cas b v o t)) h = ground (arith, h)
exchange-Ok m a (pushing push_size) h = tt
exchange-Ok m a (popping pop_top) h = tt
exchange-Ok m a (popping (pop_next b t)) h = ground (arith, h)
exchange-Ok m a (popping (pop_cas b t n)) h = ground (arith, h)
exchange-Ok m a (popping (pop_size b v)) h = h
exchange-Ok m a (popping (pop_data b v)) h = h
exchange-Ok m a (popping (pop_free b v)) h = h
exchange-Ok m a finished h = tt

-- A write to the field `next` of a node that is neither the top nor the thread's.
pub next-Ok :
    (m : Shared) (a o : ℕ) (pc : Pc)
    → (0 < a → m.top ≢ a)
    → 0 < a
    → owns a pc ≡ 0
    → Ok m pc
    → Ok (record m { next = update m.next a o }) pc
unfolding update
next-Ok m a o (pushing (push_data b v)) f p n h = h
next-Ok m a o (pushing (push_top b v)) f p n h = h
next-Ok m a o (pushing (push_next b v q t)) f p n h = h
next-Ok m a o (pushing (push_cas b v q t)) f p n h = ground (arith, h, n)
next-Ok m a o (pushing push_size) f p n h = tt
next-Ok m a o (popping pop_top) f p n h = tt
next-Ok m a o (popping (pop_next b t)) f p n h = h
next-Ok m a o (popping (pop_cas b t q)) f p n h = ground (arith, h, f p)
next-Ok m a o (popping (pop_size b v)) f p n h = h
next-Ok m a o (popping (pop_data b v)) f p n h = h
next-Ok m a o (popping (pop_free b v)) f p n h = h
next-Ok m a o finished f p n h = tt

-- A write to the value of a node that is not the thread's.
pub cell-Ok :
    (m : Shared) (a v : ℕ) (pc : Pc)
    → owns a pc ≡ 0
    → Ok m pc
    → Ok (record m { cell = update m.cell a v }) pc
unfolding update
cell-Ok m a v pc n h = ground (arith, h, n)

pub size-Ok : (m : Shared) (n : ℕ) (pc : Pc) → Ok m pc → Ok (record m { size = n }) pc
size-Ok m n pc h = ground (arith, h)

-- The same for all threads.
module _ (m m' : Shared) (a : ℕ) (one : (pc : Pc) → owns a pc ≡ 0 → Ok m pc → Ok m' pc) where
  pub frame : (pcs : List Pc) → total (owns a) pcs ≡ 0 → AllOk m pcs → AllOk m' pcs
  frame [] n h = tt
  frame (pc ∷ pcs) n h = (one pc (omega arith) h.0, frame pcs (omega arith) h.1)

pub frame_all :
    (m m' : Shared)
    → ((pc : Pc) → Ok m pc → Ok m' pc)
    → (pcs : List Pc) → AllOk m pcs
    → AllOk m' pcs
frame_all m m' one [] h = tt
frame_all m m' one (pc ∷ pcs) h = (one pc h.0, frame_all m m' one pcs h.1)

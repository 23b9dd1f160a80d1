-- ===== src/Lan/Life/Stuck.antt =====
-- A connection that was cut off while packets wait in its queue.
use chat_server_mt.Base.{
  ℕ, ◌+◌, ◌^◌, ◌≤◌, ◌<◌, ◌≡◌, refl, true, none, some, List, [], ◌∷◌, arith, if◌then◌else◌,
}
use chat_server_mt.Lan.Life.{
  Connection, Access, Chance, lan_run, lan_count, lan_disconnect, lan_recv_post, lan_post, lan_pend,
  lan_leave, lan_call, lan_complete, increment, Then, cutting, receiving, sending, pending, leaving,
  calling, completing, counting, update_io_count, read_word, exchange_word, count_release,
  post_release, exchange_flag, read_size, clear_flag, count_send, dequeue, try_send, try_size,
  send_pend, count_pend, post_pend, enqueue,
}
use chat_server_mt.Lan.Life.System.{LanSystem, total, totals, holds}

-- Accesses of a release, or of a sendPost that found the connection in order.
abbrev pub shuts : Access → ℕ
shuts (counting update_io_count) = 0
shuts (counting a) = 1
shuts (leaving a) = 1
shuts (sending exchange_flag) = 1
shuts (sending read_size) = 1
shuts (sending clear_flag) = 1
shuts (sending (count_send n)) = 1
shuts (sending (dequeue k n)) = 1
shuts _ = 0

-- Accesses that lead to a post of SEND_PEND, whatever the send flag is.
abbrev pub raises : Access → ℕ
raises (pending try_send) = 1
raises (pending count_pend) = 1
raises (pending post_pend) = 1
raises _ = 0

-- Accesses that lead to one when the send flag is not set.
abbrev pub tries : Access → ℕ
tries (pending try_size) = 1
tries (pending send_pend) = 1
tries _ = 0

-- Accesses of a thread that has a reference to give back behind them.
abbrev pub needs : Access → ℕ
needs (pending post_pend) = 0
needs (pending a) = 1
needs (calling enqueue) = 1
needs _ = 0

abbrev pub IsBacked : ℕ → List Access → Type 0
IsBacked h [] = Unit {0}
IsBacked h (a ∷ xs) = (needs a ≤ total holds xs + h) × IsBacked h xs

abbrev pub AllBacked : List (List Access) → Type 0
AllBacked [] = Unit {0}
AllBacked (t ∷ ts) = IsBacked 0 t × AllBacked ts

abbrev pub posting : Connection → ℕ → ℕ → ℕ
posting m r t = m.send_pends + r + (if m.send_flag then 0 else t)

pub record IsStuck (s : LanSystem) : Type 0 where
  pub cut : s.conn.disconnect ≡ true
  pub waiting : 0 < s.conn.queued
  pub kept : s.conn.release_pends ≡ 0
  pub shut : totals shuts s.threads ≡ 0
  pub backed : AllBacked s.threads
  pub goes : 1 ≤ posting s.conn (totals raises s.threads) (totals tries s.threads)

-- What an access leaves, when `h` references are behind it in its thread.
abbrev pub Stays : ℕ → ℕ → ℕ → Then → Type 0
Stays h r t none = Unit {0}
Stays h r t (some (m, xs)) =
    (m.disconnect ≡ true)
    × (0 < m.queued)
    × (m.release_pends ≡ 0)
    × (total shuts xs ≡ 0)
    × IsBacked h xs
    × (1 ≤ posting m (total raises xs + r) (total tries xs + t))

module _ (c : Chance) (m : Connection) (h r t : ℕ) (cut : m.disconnect ≡ true)
    (waiting : 0 < m.queued) (kept : m.release_pends ≡ 0) where
  pub lan_run-Stays :
      (a : Access)
      → shuts a ≡ 0
      → needs a ≤ h
      → 1 ≤ posting m (raises a + r) (tries a + t)
      → (a ≡ counting update_io_count → 2 ≤ m.io_count)
      → m.io_count < 2 ^ 31
      → Stays h r t (lan_run c a m)
  unfolding lan_run lan_count lan_disconnect lan_recv_post lan_post lan_pend lan_leave lan_call
      lan_complete increment
  lan_run-Stays (counting update_io_count) s n p two small =
      let e = two refl in ground (arith, cut, waiting, kept, s, n, p, e, small)
  lan_run-Stays (cutting a) s n p two small = ground (arith, cut, waiting, kept, s, n, p)
  lan_run-Stays (receiving a) s n p two small = ground (arith, cut, waiting, kept, s, n, p)
  lan_run-Stays (sending a) s n p two small = ground (arith, cut, waiting, kept, s, n, p)
  lan_run-Stays (pending a) s n p two small = ground (arith, cut, waiting, kept, s, n, p)
  lan_run-Stays (calling a) s n p two small = ground (arith, cut, waiting, kept, s, n, p)
  lan_run-Stays (completing a) s n p two small = ground (arith, cut, waiting, kept, s, n, p)
  lan_run-Stays (leaving a) s n p two small = ground (arith, s)
  lan_run-Stays (counting read_word) s n p two small = ground (arith, s)
  lan_run-Stays (counting exchange_word) s n p two small = ground (arith, s)
  lan_run-Stays (counting count_release) s n p two small = ground (arith, s)
  lan_run-Stays (counting post_release) s n p two small = ground (arith, s)

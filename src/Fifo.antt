-- ===== src/Fifo.antt =====
-- What a byte ring promises: a queue of at most `cap` bytes that takes and gives whole blocks.
use chat_server_mt.Base.{ℕ, ◌+◌, ◌||◌, List, [], ◌++◌, ltb, ◌==◌, if◌then◌else◌, length, take, drop}

abbrev pub Fifo : Type 0
Fifo = List ℕ

unfoldable pub enqueue : ℕ → Fifo → List ℕ → ℕ × Fifo
enqueue cap q bytes =
    if length bytes == 0 || ltb cap (length q + length bytes)
    then (0, q)
    else (length bytes, q ++ bytes)

unfoldable pub dequeue : Fifo → ℕ → ℕ × List ℕ × Fifo
dequeue q n = if n == 0 || ltb (length q) n then (0, [], q) else (n, take n q, drop n q)

unfoldable pub peek : Fifo → ℕ → ℕ × List ℕ
peek q n = if n == 0 || ltb (length q) n then (0, []) else (n, take n q)

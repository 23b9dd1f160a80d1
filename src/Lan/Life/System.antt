-- ===== src/Lan/Life/System.antt =====
-- Any number of threads at one connection of CLanClient, and what they hold of `io_count`.
use chat_server_mt.Base.{ℕ, suc, ◌+◌, ◌^◌, ◌<◌, ◌≡◌, false, some, List, [], ◌∷◌, ◌++◌, arith}
use chat_server_mt.Lan.Life.{
  Connection, update_io_count, post_release, read_disconnect, post_cancel, recv_post, wsa_recv,
  dequeue, wsa_send, try_send, post_pend, release, enter, recv_done, send_done, Access, counting,
  cutting, receiving, sending, pending, leaving, calling, completing, Chance, lan_run,
}

pub record LanSystem : Type 0 where
  pub conn : Connection
  pub threads : List (List Access)

abbrev pub total : (Access → ℕ) → List Access → ℕ
total f [] = 0
total f (a ∷ xs) = f a + total f xs

abbrev pub totals : (Access → ℕ) → List (List Access) → ℕ
totals f [] = 0
totals f (t ∷ ts) = total f t + totals f ts

pub total-append :
    (f : Access → ℕ) (xs ys : List Access) → total f (xs ++ ys) ≡ total f xs + total f ys
total-append f [] ys = omega arith
total-append f (a ∷ xs) ys = omega (arith, total-append f xs ys)

pub totals-append :
    (f : Access → ℕ) (xs ys : List (List Access)) → totals f (xs ++ ys) ≡ totals f xs + totals f ys
totals-append f [] ys = omega arith
totals-append f (a ∷ xs) ys = omega (arith, totals-append f xs ys)

-- A thread that is about to make one access, among the others.
pub totals-split :
    (f : Access → ℕ) (before after : List (List Access)) (xs ys : List Access)
    → totals f (before ++ (xs ++ ys) ∷ after)
      ≡ totals f before + total f xs + total f ys + totals f after
totals-split f before after xs ys =
    omega (arith, totals-append f before ((xs ++ ys) ∷ after), total-append f xs ys)

-- The references to the connection that an access will give back, or hand to a request or a post.
abbrev pub holds : Access → ℕ
holds (counting update_io_count) = 1
holds (counting post_release) = 1
holds (cutting post_cancel) = 1
holds (receiving wsa_recv) = 1
holds (sending (dequeue k n)) = 1
holds (sending wsa_send) = 1
holds (pending post_pend) = 1
holds _ = 0

-- What the completion port holds: the requests under way and the posts that wait.
abbrev pub in_port : Connection → ℕ
in_port m = m.recv_io + m.send_io + m.send_pends + m.release_pends + m.cancel_ios

abbrev pub lan_refs : LanSystem → ℕ
lan_refs s = in_port s.conn + totals holds s.threads

-- A thread begins with these accesses, and takes from the port what it begins with.
pub data Begins (m : Connection) : List Access → Connection → Type 0 where
  calls : Begins m (calling enter ∷ []) m
  disconnects : Begins m (cutting read_disconnect ∷ []) m
  receives :
      (n k : ℕ)
      → m.recv_io ≡ suc k
      → Begins m
          (completing (recv_done n) ∷ counting update_io_count ∷ [])
          (record m { recv_io = k })
  sent :
      (n k : ℕ)
      → m.send_io ≡ suc k
      → Begins m
          (completing (send_done n) ∷ counting update_io_count ∷ [])
          (record m { send_io = k })
  pends :
      (k : ℕ)
      → m.send_pends ≡ suc k
      → Begins m (pending try_send ∷ counting update_io_count ∷ []) (record m { send_pends = k })
  releases :
      (k : ℕ)
      → m.release_pends ≡ suc k
      → Begins m (leaving release ∷ counting update_io_count ∷ []) (record m { release_pends = k })
  cancels :
      (k : ℕ)
      → m.cancel_ios ≡ suc k
      → Begins m (counting update_io_count ∷ []) (record m { cancel_ios = k })

pub data LanStep (s s' : LanSystem) : Type 0 where
  begins :
      (xs : List Access) (m : Connection)
      → Begins s.conn xs m
      → s' ≡ record { conn = m; threads = xs ∷ s.threads }
      → LanStep s s'
  goes_on :
      (before after : List (List Access)) (a : Access) (rest : List Access) (c : Chance)
      (m : Connection) (xs : List Access)
      → s.threads ≡ before ++ (a ∷ rest) ∷ after
      → lan_run c a s.conn ≡ some (m, xs)
      → s' ≡ record { conn = m; threads = before ++ (xs ++ rest) ∷ after }
      → LanStep s s'

-- connectSession behind `connect`: one reference, and then recvPost and updateIOCount.
abbrev pub connect_session : LanSystem
connect_session = record {
  conn = record {
    io_count = 1;
    release_flag = false;
    disconnect = false;
    send_flag = false;
    queued = 0;
    sent_packet_cnt = 0;
    recv_io = 0;
    send_io = 0;
    send_pends = 0;
    release_pends = 0;
    cancel_ios = 0;
  };
  threads = (receiving recv_post ∷ counting update_io_count ∷ []) ∷ [];
}

-- Any number of steps between states that hold fewer than 2^31 references.
pub data LanSteps : LanSystem → LanSystem → Type 0 where
  stays : {s s' : LanSystem} → s' ≡ s → LanSteps s s'
  steps_on :
      {s s' s'' : LanSystem}
      → LanSteps s s'
      → LanStep s' s''
      → lan_refs s'' < 2 ^ 31
      → LanSteps s s''

-- ===== src/Lan/Connect.antt =====
-- CLanClient::Connect, Disconnect and releaseClient: the worker threads of the client. The number
-- of workers is that of the configuration, and the same in each call of Connect.
use chat_server_mt.Base.{ℕ, ◌≡◌, Bool, true, false, ◌&&◌, List, [], ◌∷◌, if◌then◌else◌, arith}

pub record Workers : Type 0 where
  pub is_init : Bool
  pub is_connected : Bool
  pub running : ℕ

abbrev pub new_client : Workers
new_client = record { is_init = false; is_connected = false; running = 0 }

-- A post without a key for each worker, each of which ends a worker, and the wait for all.
unfoldable pub release_client : Workers → Workers
release_client c = record c { running = 0; is_connected = false }

-- The workers are made in the first call only. `socket` and `connect` are whether the calls of
-- that name succeed.
unfoldable pub client_connect : ℕ → (socket connect : Bool) → Workers → Bool × Workers
unfolding release_client
client_connect worker_num socket connect c =
    if c.is_connected
    then (false, c)
    else let c' = record c {
      is_init = true;
      running = if c.is_init then c.running else worker_num;
    } in
      let ret = socket && connect in
      let c'' = record c' { is_connected = if socket then true else c'.is_connected } in
      if ret then (true, c'') else (false, release_client c'')

unfoldable pub client_disconnect : Workers → Workers
unfolding release_client
client_disconnect c = if c.is_connected then release_client c else c

pub data ClientCall : Type 0 where
  connects : (socket connect : Bool) → ClientCall
  disconnects : ClientCall

unfoldable pub client_call : ℕ → ClientCall → Workers → Workers
unfolding client_connect client_disconnect
client_call n (connects s o) c = (client_connect n s o c).1
client_call n disconnects c = client_disconnect c

unfoldable pub client_calls : ℕ → List ClientCall → Workers → Workers
unfolding client_call
client_calls n [] c = c
client_calls n (a ∷ xs) c = client_calls n xs (client_call n a c)

abbrev IsDead : Workers → Type 0
IsDead c = (c.is_init ≡ true) × (c.running ≡ 0)

call-IsDead : (n : ℕ) (a : ClientCall) (c : Workers) → IsDead c → IsDead (client_call n a c)
unfolding client_call client_connect client_disconnect release_client
call-IsDead n a c h = ground (arith, h)

calls-IsDead :
    (n : ℕ) (xs : List ClientCall) (c : Workers) → IsDead c → IsDead (client_calls n xs c)
unfolding client_calls
calls-IsDead n [] c h = h
calls-IsDead n (a ∷ xs) c h = calls-IsDead n xs (client_call n a c) (call-IsDead n a c h)

fails-IsDead :
    (n : ℕ) (s o : Bool) (c : Workers)
    → c.is_connected ≡ false
    → (client_connect n s o c).0 ≡ false
    → IsDead (client_connect n s o c).1
unfolding client_connect release_client
fails-IsDead n s o c i h = ground (arith, i, h)

connects-again :
    (n : ℕ) (c : Workers)
    → IsDead c
    → c.is_connected ≡ false
    → ((client_connect n true true c).0 ≡ true)
      × ((client_connect n true true c).1.is_connected ≡ true)
      × ((client_connect n true true c).1.running ≡ 0)
unfolding client_connect release_client
connects-again n c d i = ground (arith, d, i)

-- The client after a call of Connect and some more calls.
abbrev pub later : ℕ → (socket connect : Bool) → Workers → List ClientCall → Workers
later n s o c xs = client_calls n xs (client_connect n s o c).1

-- After a call of CLanClient::Connect that fails for a client that was not connected, and any
-- further calls of Connect and Disconnect, a call of Connect that succeeds returns true and sets
-- m_isConnected although no worker thread runs.
pub no_workers :
    (n : ℕ) (s o : Bool) (c : Workers) (xs : List ClientCall)
    → c.is_connected ≡ false
    → (client_connect n s o c).0 ≡ false
    → (later n s o c xs).is_connected ≡ false
    → ((client_connect n true true (later n s o c xs)).0 ≡ true)
      × ((client_connect n true true (later n s o c xs)).1.is_connected ≡ true)
      × ((client_connect n true true (later n s o c xs)).1.running ≡ 0)
no_workers n s o c xs i h e =
    connects-again n (later n s o c xs) (calls-IsDead n xs _ (fails-IsDead n s o c i h)) e

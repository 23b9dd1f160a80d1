-- ===== src/Session/Inv.antt =====
-- The invariant of a session: its fields, against what the threads hold.
use chat_server_mt.Base.{ℕ, ◌+◌, ◌^◌, ◌≤◌, ◌<◌, ◌≡◌, Bool, true, false, none, some, if◌then◌else◌}
use chat_server_mt.Session.{Session, Thread}
use chat_server_mt.Session.Run.{After}
use chat_server_mt.Session.Weights.{
  total, refs, opening, closing, leaving, readers, joiners, watchers, needs, inner, senders,
  receivers,
}

-- The requests under way and the posts not yet taken.
abbrev pub pending : Session → ℕ
pending m = m.recv_io + m.send_io + m.send_pends + m.release_pends + m.cancel_ios

abbrev pub bit : Bool → ℕ
bit true = 1
bit false = 0

abbrev pub live : Session → ℕ
live m = if m.release_flag then 0 else 1

-- What the threads hold, added up.
pub record Held : Type 0 where
  pub r : ℕ
  pub o : ℕ
  pub c : ℕ
  pub l : ℕ
  pub d : ℕ
  pub j : ℕ
  pub w : ℕ
  pub n : ℕ
  pub i : ℕ
  pub s : ℕ
  pub v : ℕ

abbrev pub add : Thread → Held → Held
add t h = record {
  r = total refs t + h.r;
  o = total opening t + h.o;
  c = total closing t + h.c;
  l = total leaving t + h.l;
  d = total readers t + h.d;
  j = total joiners t + h.j;
  w = total watchers t + h.w;
  n = total needs t + h.n;
  i = total inner t + h.i;
  s = total senders t + h.s;
  v = total receivers t + h.v;
}

pub record Inv (m : Session) (h : Held) : Type 0 where
  pub counted : m.io_count ≡ h.r + pending m
  pub one : m.on_stack + h.o + h.c + m.release_pends + h.l + live m ≡ 1
  pub join : bit m.joined + h.j ≡ live m + h.c + m.release_pends
  pub alone : 1 ≤ h.c + m.release_pends → (m.disconnect ≡ true) × (h.j ≡ 0)
  pub read : m.release_flag ≡ false → m.disconnect ≡ false → 1 ≤ h.d + m.recv_io
  pub quiet : m.release_flag ≡ true → h.i + m.recv_io + m.send_io + m.send_pends + m.cancel_ios ≡ 0
  pub one_sender : h.s + m.send_io + m.send_pends ≤ bit m.send_post_flag
  pub one_receiver : h.v + m.recv_io ≤ live m
  pub watched : m.release_flag ≡ false → m.io_count ≡ 0 → 1 ≤ h.w

-- Fewer than 2^31 references.
abbrev pub IsSmall : Session → Held → Type 0
IsSmall m h = h.r + pending m < 2 ^ 31

-- A step did not crash, and keeps the invariant.
abbrev pub Keeps : Held → After → Type 0
Keeps h none = ⊥
Keeps h (some (m, more)) = IsSmall m (add more h) → Inv m (add more h)

-- What has to be done under a reference is done under one.
pub record IsHeld (h : Held) : Type 0 where
  pub under : 1 ≤ h.n → 1 ≤ h.r
  pub reading : h.d ≤ h.n
  pub joining : h.j ≤ h.n
  pub inside : h.i ≤ h.n + h.r
  pub sending : h.s ≤ h.i
  pub receiving : h.v ≤ h.n

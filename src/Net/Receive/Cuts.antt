-- ===== src/Net/Receive/Cuts.antt =====
-- Streams of frames, cut anywhere, and the events that deliver them.
use mathlib.Core.List.{head-eq_of_cons-eq, tail-eq_of_cons-eq}
use chat_server_mt.Base.{
  ℕ, ◌≤◌, ◌<◌, ◌≡◌, ◌∙◌, ap, ap₂, sym, refl, List, [], ◌∷◌, ◌++◌, arith, length, append_assoc,
  length-append, dec_lt,
}
use chat_server_mt.Packet.Inv
use chat_server_mt.Packet.Inv.{payload}
use chat_server_mt.Net.Receive.{Event, on_recv, disconnects}
use chat_server_mt.Net.Receive.Loaded.{Sent, frame_of, IsSendable}

abbrev pub frames : ℕ → List Sent → List ℕ
frames key [] = []
frames key (m ∷ ms) = frame_of key m ++ frames key ms

abbrev pub AllSendable : ℕ → List Sent → Type 0
AllSendable cap [] = Unit {0}
AllSendable cap (m ∷ ms) = IsSendable cap m × AllSendable cap ms

-- The events are calls of `OnRecv` with these packets, in this order, and nothing else.
abbrev pub Delivers : List Sent → List Event → Type 0
Delivers [] [] = Unit {0}
Delivers [] (e ∷ es) = ⊥
Delivers (m ∷ ms) [] = ⊥
Delivers (m ∷ ms) (disconnects ∷ es) = ⊥
Delivers (m ∷ ms) (on_recv p ∷ es) = (payload p ≡ m.bytes) × Inv.IsValid p × Delivers ms es

pub Delivers-append :
    (ms ns : List Sent) (es fs : List Event)
    → Delivers ms es
    → Delivers ns fs
    → Delivers (ms ++ ns) (es ++ fs)
Delivers-append [] ns [] fs h k = k
Delivers-append [] ns (e ∷ es) fs h k = elim h [ ]
Delivers-append (m ∷ ms) ns [] fs h k = elim h [ ]
Delivers-append (m ∷ ms) ns (disconnects ∷ es) fs h k = elim h [ ]
Delivers-append (m ∷ ms) ns (on_recv p ∷ es) fs h k = (h.0, h.1, Delivers-append ms ns es fs h.2 k)

-- Too few bytes for the first of the frames to come.
abbrev pub IsShort : ℕ → List Sent → List ℕ → Type 0
IsShort key [] q = length q ≡ 0
IsShort key (m ∷ ms) q = length q < length (frame_of key m)

-- Two ways to cut a list.
append-cut :
    (us vs xs ys : List ℕ)
    → xs ++ ys ≡ us ++ vs
    → length us ≤ length xs
    → (w : List ℕ) × (xs ≡ us ++ w) × (w ++ ys ≡ vs)
append-cut [] vs xs ys e h = (xs, refl, e)
append-cut (u ∷ us) vs [] ys e h = absurd (omega arith)
append-cut (u ∷ us) vs (x ∷ xs) ys e h =
    let rest = append-cut us vs xs ys (tail-eq_of_cons-eq e) (omega arith) in
    (rest.0, ap₂ ◌∷◌ (head-eq_of_cons-eq e) rest.1, rest.2)

-- What has arrived, `q`, of a stream of frames: whole frames, and the start of the next.
pub record Arrived (key : ℕ) (ms : List Sent) (q future : List ℕ) : Type 0 where
  pub done : List Sent
  pub left : List Sent
  pub partial : List ℕ
  pub sent : ms ≡ done ++ left
  pub held : q ≡ frames key done ++ partial
  pub coming : partial ++ future ≡ frames key left
  pub short : IsShort key left partial

pub arrived :
    (key : ℕ) (ms : List Sent) (q future : List ℕ)
    → q ++ future ≡ frames key ms
    → Arrived key ms q future
arrived key [] q future e = record {
  done = [];
  left = [];
  partial = q;
  sent = refl;
  held = refl;
  coming = e;
  short = omega (arith, ap length e, length-append q future);
}
arrived key (m ∷ ms) q future e = elim (dec_lt (length q) (length (frame_of key m))) [
  | yes few ↦ record {
    done = [];
    left = m ∷ ms;
    partial = q;
    sent = refl;
    held = refl;
    coming = e;
    short = few;
  }
  | no enough ↦
      let cut = append-cut (frame_of key m) (frames key ms) q future e (omega arith) in
      let rest = arrived key ms cut.0 future cut.2 in
      record {
        done = m ∷ rest.done;
        left = rest.left;
        partial = rest.partial;
        sent = ap (λ t. m ∷ t) rest.sent;
        held =
            cut.1
            ∙ ap (λ t. frame_of key m ++ t) rest.held
            ∙ sym (append_assoc (frame_of key m) (frames key rest.done) rest.partial);
        coming = rest.coming;
        short = rest.short;
      }
]

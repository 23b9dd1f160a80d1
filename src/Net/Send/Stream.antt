-- ===== src/Net/Send/Stream.antt =====
-- What the send path of CNetServer puts on the wire, against the packets that its queue took.
use chat_server_mt.Base.{
  ◌%◌, ◌/◌, ℕ, ◌+◌, ◌^◌, ◌≤◌, ◌<◌, ◌≡◌, ◌∙◌, ap, sym, refl, Bool, true, false, List, [], ◌∷◌, ◌++◌,
  append_assoc, arith, length, length-blit, length-slice, ◌==◌, if◌then◌else◌,
}
use chat_server_mt.Packet.{Packet, set_len_net, get_data_size_net}
use chat_server_mt.Packet.Inv
use chat_server_mt.Packet.Wire.{wire}
use chat_server_mt.Fifo
use chat_server_mt.Ring
use chat_server_mt.Ring.{Ring, get_buffer_size, move_front}
use chat_server_mt.Ring.Inv.{IsValid, enqueue-IsValid}
use chat_server_mt.Ring.Contents.{contents}
use chat_server_mt.Ring.Refine.{enqueue_refines}
use chat_server_mt.Net.Send.{Sender, fill_loop}

-- A packet as PacketMaker leaves it.
pub record IsSendable (p : Packet) : Type 0 where
  pub valid : Inv.IsValid p
  pub word : get_data_size_net p < 2 ^ 32

abbrev pub AllSendable : List Packet → Type 0
AllSendable [] = Unit {0}
AllSendable (p ∷ q) = IsSendable p × AllSendable q

-- The bytes of the packets, one frame behind the other.
abbrev pub frames : List Packet → List ℕ
frames [] = []
frames (p ∷ q) = wire p ++ frames q

pub frames-none : (q : List Packet) → length q ≤ 0 → frames q ≡ []
frames-none [] few = refl
frames-none (p ∷ q) few = absurd (omega arith)

pub frames-append : (q q' : List Packet) → frames (q ++ q') ≡ frames q ++ frames q'
frames-append [] q' = refl
frames-append (p ∷ q) q' =
    ap (λ t. wire p ++ t) (frames-append q q') ∙ sym (append_assoc (wire p) (frames q) (frames q'))

pub AllSendable-append :
    (q : List Packet) {p : Packet} → AllSendable q → IsSendable p → AllSendable (q ++ p ∷ [])
AllSendable-append [] a s = (s, tt)
AllSendable-append (p ∷ q) a s = (a.0, AllSendable-append q a.1 s)

-- What is still to be sent.
abbrev pub stream : Sender → List ℕ
stream s = contents s.send_buffer ++ frames s.send_q

module _ {p : Packet} (s : IsSendable p) where
  in_array : get_data_size_net p ≤ length (set_len_net p).hidden_buf
  unfolding set_len_net get_data_size_net
  in_array =
      let v = s.valid in
      ground
        (arith, v, length-blit p.hidden_buf 1 (p.data_size % 256 ∷ p.data_size / 256 % 256 ∷ []))

  pub length-wire : length (wire p) ≡ get_data_size_net p
  unfolding wire
  length-wire =
      length-slice (set_len_net p).hidden_buf 0 (get_data_size_net p) (omega (arith, in_array))

  pub wire-not_empty : 0 < length (wire p)
  unfolding get_data_size_net
  wire-not_empty = omega (arith, length-wire)

module _ {r : Ring} {p : Packet} (v : IsValid r) (s : IsSendable p) where
  abbrev pub result : ℕ × Ring
  result = Ring.enqueue r (set_len_net p).hidden_buf (get_data_size_net p)

  pub frame-refines :
      ◌≡◌ {A = ℕ × List ℕ}
        (result.0, contents result.1)
        (Fifo.enqueue (get_buffer_size r) (contents r) (wire p))
  unfolding wire
  frame-refines =
      enqueue_refines (set_len_net p).hidden_buf (get_data_size_net p) v s.word (in_array s)

  pub frame-IsValid : IsValid result.1
  frame-IsValid = enqueue-IsValid (set_len_net p).hidden_buf (get_data_size_net p) s.word v

  pub frame-taken : (result.0 == 0) ≡ false → contents result.1 ≡ contents r ++ wire p
  unfolding Fifo.enqueue
  frame-taken taken = ground (arith, frame-refines)

-- What holds of a sender while the loop of sendPost runs, and what the loop leaves to be sent.
pub record IsFilled (s : Sender) (bytes : List ℕ) : Type 0 where
  pub ring : IsValid s.send_buffer
  pub queue : AllSendable s.send_q
  pub same : stream s ≡ bytes

if-IsFilled :
    (b : Bool) {s t : Sender} {bytes : List ℕ}
    → (b ≡ true → IsFilled s bytes)
    → (b ≡ false → IsFilled t bytes)
    → IsFilled (if b then s else t) bytes
if-IsFilled true yes_case no_case = yes_case refl
if-IsFilled false yes_case no_case = no_case refl

pub fill_loop-IsFilled :
    (q : List Packet) {r : Ring} (n : ℕ)
    → IsValid r
    → AllSendable q
    → IsFilled (fill_loop q r n) (contents r ++ frames q)
unfolding fill_loop
fill_loop-IsFilled [] n v a = record { ring = v; queue = a; same = refl }
fill_loop-IsFilled (p ∷ q) {r} n v a =
    if-IsFilled ((result v a.0).0 == 0) (λ refused. record { ring = v; queue = a; same = refl })
      λ taken.
        let w = fill_loop-IsFilled q (n + 1) (frame-IsValid v a.0) a.1 in
        record {
          ring = w.ring;
          queue = w.queue;
          same =
              w.same
              ∙ ap (λ t. t ++ frames q) (frame-taken v a.0 taken)
              ∙ append_assoc (contents r) (wire p) (frames q);
        }

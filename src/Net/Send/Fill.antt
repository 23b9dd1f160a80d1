-- ===== src/Net/Send/Fill.antt =====
-- What the loop of sendPost leaves in the queue and in the ring.
use chat_server_mt.Base.{
  ℕ, ◌+◌, ◌≤◌, ◌<◌, ◌≡◌, ◌∙◌, ap, sym, refl, subst, Bool, true, false, List, [], ◌∷◌, arith, length,
  ◌==◌, if◌then◌else◌,
}
use chat_server_mt.Packet.{Packet, get_data_size_net, set_len_net}
use chat_server_mt.Fifo
use chat_server_mt.Ring
use chat_server_mt.Ring.{Ring, enqueue_split, enqueue_flat, move_front, get_buffer_size}
use chat_server_mt.Ring.Inv.{IsValid}
use chat_server_mt.Ring.Contents.{contents}
use chat_server_mt.Net.Send.{Sender, fill_loop}
use chat_server_mt.Net.Send.Stream.{
  IsSendable, AllSendable, result, frame-refines, length-wire, wire-not_empty,
}

-- The packets fit a ring of the given length when it holds nothing.
abbrev pub AllFit : ℕ → List Packet → Type 0
AllFit n [] = Unit {0}
AllFit n (p ∷ q) = (get_data_size_net p < n) × AllFit n q

enqueue-buf_size :
    (r : Ring) (src : List ℕ) (size : ℕ) → (Ring.enqueue r src size).1.buf_size ≡ r.buf_size
unfolding Ring.enqueue enqueue_split enqueue_flat
enqueue-buf_size r src size = ground arith

-- What the loop of sendPost leaves.
pub record Leaves (q : List Packet) (r : Ring) (s : Sender) : Type 0 where
  pub size : s.send_buffer.buf_size ≡ r.buf_size
  pub fewer : length s.send_q ≤ length q
  pub fit : AllFit r.buf_size s.send_q

if-Leaves :
    {q : List Packet} {r : Ring} (b : Bool) {s t : Sender}
    → Leaves q r s
    → Leaves q r t
    → Leaves q r (if b then s else t)
if-Leaves true l m = l
if-Leaves false l m = m

pub fill_loop-Leaves :
    (q : List Packet) (r : Ring) (n : ℕ) → AllFit r.buf_size q → Leaves q r (fill_loop q r n)
unfolding fill_loop
fill_loop-Leaves [] r n f = record { size = refl; fewer = omega arith; fit = tt }
fill_loop-Leaves (p ∷ q) r n f =
    let e = Ring.enqueue r (set_len_net p).hidden_buf (get_data_size_net p) in
    let same = enqueue-buf_size r (set_len_net p).hidden_buf (get_data_size_net p) in
    let w = fill_loop-Leaves q e.1 (n + 1) (subst (λ k. AllFit k q) (sym same) f.1) in
    if-Leaves (e.0 == 0) (record { size = refl; fewer = omega arith; fit = f })
      (record {
        size = w.size ∙ same;
        fewer = omega (arith, w.fewer);
        fit = subst (λ k. AllFit k (fill_loop q e.1 (n + 1)).send_q) same w.fit;
      })

-- An empty ring takes the first packet.
first-taken :
    {r : Ring} {p : Packet} (v : IsValid r) (s : IsSendable p)
    → contents r ≡ []
    → get_data_size_net p < r.buf_size
    → ((result v s).0 == 0) ≡ false
unfolding Fifo.enqueue get_buffer_size
first-taken {r} {p} v s empty fits =
    ground (arith, frame-refines v s, length-wire s, wire-not_empty s, ap length empty, v)

pub fill_loop-takes :
    (q : List Packet) (r : Ring) (n : ℕ)
    → IsValid r
    → AllSendable q
    → AllFit r.buf_size q
    → contents r ≡ []
    → 0 < length q
    → length (fill_loop q r n).send_q < length q
unfolding fill_loop
fill_loop-takes [] r n v a f empty more = more
fill_loop-takes (p ∷ q) r n v a f empty more =
    let e = Ring.enqueue r (set_len_net p).hidden_buf (get_data_size_net p) in
    let same = enqueue-buf_size r (set_len_net p).hidden_buf (get_data_size_net p) in
    let w = fill_loop-Leaves q e.1 (n + 1) (subst (λ k. AllFit k q) (sym same) f.1) in
    ground (arith, first-taken v a.0 empty f.0, w.fewer)

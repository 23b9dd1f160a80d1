-- ===== src/Net/Send/Stall.antt =====
-- sendPost with an empty queue and bytes left in the ring.
use chat_server_mt.Base.{
  ℕ, zero, suc, ◌≤◌, ◌≡◌, ◌∙◌, ap, sym, refl, Option, none, some, List, [], ◌∷◌, ◌++◌, append-nil,
  arith, length, min, take,
}
use chat_server_mt.Packet.{Packet}
use chat_server_mt.Ring.{Ring}
use chat_server_mt.Ring.Inv.{IsValid}
use chat_server_mt.Ring.Contents.{contents}
use chat_server_mt.Ring.Segments.{SocketIo, send_buffers, gather-send_buffers}
use chat_server_mt.Net.Send.{fill_loop, send_post, send_done, enqueue_packet}
use chat_server_mt.Net.Send.Stream.{IsSendable, frames, frames-none, fill_loop-IsFilled}
use chat_server_mt.Net.Send.Fill.{AllFit, fill_loop-takes}
use chat_server_mt.Net.Send.Link.{
  Link, Move, queues, posts, completes, move, run, post_when, post_filled, complete_when, idle,
}

-- Calls of sendPost and completions of so many bytes, without a call of SendPacket.
abbrev pub without_packets : List (Option ℕ) → List Move
without_packets [] = []
without_packets (none ∷ ms) = posts ∷ without_packets ms
without_packets (some n ∷ ms) = completes n ∷ without_packets ms

-- With an empty queue sendPost leaves everything as it is.
post_when-empty :
    (io : SocketIo) (l : Link)
    → length l.sender.send_q ≤ 0
    → post_when io l none ≡ record l { in_flight = none }
unfolding send_post
post_when-empty io l few = ground arith

nothing_moves :
    (io : SocketIo) (ms : List (Option ℕ)) (l : Link)
    → l.in_flight ≡ none
    → length l.sender.send_q ≤ 0
    → run io (without_packets ms) l ≡ l
unfolding run move
nothing_moves io [] l quiet few = refl
nothing_moves io (none ∷ ms) l quiet few =
    ap (λ o. run io (without_packets ms) (post_when io l o)) quiet
    ∙ ap (λ k. run io (without_packets ms) k) (post_when-empty io l few)
    ∙ ap (λ o. run io (without_packets ms) (record l { in_flight = o })) (sym quiet)
    ∙ nothing_moves io ms l quiet few
nothing_moves io (some n ∷ ms) l quiet few =
    ap (λ o. run io (without_packets ms) (complete_when n l o)) quiet
    ∙ nothing_moves io ms l quiet few

take-min : (n : ℕ) (xs : List ℕ) → take (min n (length xs)) xs ≡ take n xs
take-min zero [] = refl
take-min (suc n) [] = ap (λ k. take k []) {y = 0} (omega arith)
take-min zero (x ∷ xs) = ap (λ k. take k (x ∷ xs)) {y = 0} (omega arith)
take-min (suc n) (x ∷ xs) =
    ap (λ k. take k (x ∷ xs)) {y = suc (min n (length xs))} (omega arith)
    ∙ ap (λ t. x ∷ t) (take-min n xs)

module _ (io : SocketIo) (r : Ring) (v : IsValid r) (empty : contents r ≡ []) (p : Packet)
    (s : IsSendable p) (fit : AllFit r.buf_size (p ∷ [])) where
  -- The link when the packet is queued, when it is posted, and when `n` bytes are completed.
  queued : Link
  queued = record (idle r) {
    sender = record { send_q = p ∷ []; send_buffer = r; send_packet = 0 };
    taken = p ∷ [];
  }

  completed : ℕ → Link
  completed n = move io (completes n) (post_filled io queued)

  completed-few : (n : ℕ) → length (completed n).sender.send_q ≤ 0
  unfolding completed queued move send_done
  completed-few n = omega (arith, fill_loop-takes (p ∷ []) r 0 v (s, tt) fit empty (omega arith))

  all_posted :
      let filled = (fill_loop (p ∷ []) r 0).send_buffer in contents filled ≡ frames (p ∷ [])
  all_posted =
      let w = fill_loop-IsFilled (p ∷ []) 0 v (s, tt) in
      let filled = fill_loop (p ∷ []) r 0 in
      sym (append-nil (contents filled.send_buffer))
      ∙ ap (λ t. contents filled.send_buffer ++ t)
          (sym (
            frames-none filled.send_q
              (omega (arith, fill_loop-takes (p ∷ []) r 0 v (s, tt) fit empty (omega arith)))))
      ∙ w.same
      ∙ ap (λ t. t ++ frames (p ∷ [])) empty

  -- When a packet that is valid, short of 2^32 bytes and fits the empty valid ring is queued and
  -- posted, and some number of its bytes is completed, then whatever calls of sendPost and
  -- completions follow, only these bytes go out: sendPost looks at the queue alone, so that the
  -- rest of the frame stays in the ring for sending until another packet is queued.
  pub sends_stall :
      (n : ℕ) (ms : List (Option ℕ))
      → (run io (queues p s ∷ posts ∷ completes n ∷ without_packets ms) (idle r)).out
        ≡ take n (frames (p ∷ []))
  unfolding run move enqueue_packet send_post completed queued
  sends_stall n ms =
      let filled = (fill_loop (p ∷ []) r 0).send_buffer in
      let w = fill_loop-IsFilled (p ∷ []) 0 v (s, tt) in
      ap (λ l. l.out) (nothing_moves io ms (completed n) refl (completed-few n))
      ∙ take-min n (io.gather filled.buf (send_buffers filled))
      ∙ ap (λ t. take n t) (gather-send_buffers io w.ring ∙ all_posted)

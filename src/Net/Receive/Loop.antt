-- ===== src/Net/Receive/Loop.antt =====
-- The receive loop on a ring that holds whole frames and the start of another.
use chat_server_mt.Base.{
  ℕ, zero, suc, ◌+◌, ◌^◌, ◌≤◌, ◌<◌, ◌≡◌, ◌∙◌, ap, ap₂, sym, List, [], ◌∷◌, ◌++◌, arith, length,
  take, drop, take-append, take-append_left, drop-append, append_assoc, length-append, dec_lt,
}
use chat_server_mt.Packet.{Packet, net_header_size}
use chat_server_mt.Packet.Inv
use chat_server_mt.Packet.Inv.{payload}
use chat_server_mt.Packet.Codec.{length-frame}
use chat_server_mt.Ring
use chat_server_mt.Ring.{Ring}
use chat_server_mt.Ring.Inv.{IsValid}
use chat_server_mt.Ring.Contents.{contents}
use chat_server_mt.Net.Receive.{on_recv, header_len, load_frame, handle_frame, recv_loop}
use chat_server_mt.Net.Receive.Frames.{
  recv_short, recv_incomplete, recv_complete, first_len, after_frame, after_frame-IsValid,
  contents-after_frame, get_buffer_size-after_frame,
}
use chat_server_mt.Net.Receive.Loaded.{
  Sent, frame_of, IsSendable, header_len-frame, handle_frame_lem,
}
use chat_server_mt.Net.Receive.Cuts.{frames, AllSendable, Delivers, IsShort}

-- The state of a ring between two rounds.
pub record Holds (cap : ℕ) (r : Ring) (q : List ℕ) : Type 0 where
  pub valid : IsValid r
  pub same_cap : Ring.get_buffer_size r ≡ cap
  pub holds : contents r ≡ q

module _ (key cap : ℕ) {pooled : Packet} (v : Inv.IsValid pooled) (big : cap ≤ pooled.buffer_size)
    (small : cap < 2 ^ 16) where
  pooled-IsSendable : (m : Sent) → IsSendable cap m → IsSendable pooled.buffer_size m
  pooled-IsSendable m s = record {
    is_bytes = s.is_bytes;
    not_empty = s.not_empty;
    fits = omega (arith, s.fits);
  }

  -- With only the start of a frame in the ring, the loop stops and takes nothing.
  loop_short :
      (fuel : ℕ) (left : List Sent) (r : Ring) (partial future : List ℕ)
      → AllSendable cap left
      → Holds cap r partial
      → partial ++ future ≡ frames key left
      → IsShort key left partial
      → recv_loop (suc fuel) key pooled r ≡ ([], r)
  loop_short fuel [] r partial future ok h e few =
      recv_short fuel key pooled h.valid (omega (arith, ap length h.holds))
  loop_short fuel (m ∷ ms) r partial future ok h e few =
      elim (dec_lt (length partial) net_header_size) [
        | yes p ↦ recv_short fuel key pooled h.valid (omega (arith, ap length h.holds))
        | no p ↦
            recv_incomplete fuel key pooled h.valid (omega (arith, ap length h.holds))
              (omega (arith, header, ok.0.not_empty)) (omega (arith, header, ok.0.fits, h.same_cap))
              (omega (arith, header, ap length h.holds, length-frame key m.code m.r_key m.bytes))
      ]
    where
      header :
          net_header_size ≤ length partial
          → header_len (take net_header_size (contents r)) ≡ length m.bytes
      header enough =
          ap (λ q. header_len (take net_header_size q)) h.holds
          ∙ ap header_len (
              sym (take-append_left net_header_size partial future enough)
              ∙ ap (take net_header_size) e)
          ∙ header_len-frame key m (frames key ms) (omega (arith, ok.0.fits))

  -- With a whole frame in the ring, the loop hands its packet over and goes on.
  loop_frame :
      (fuel : ℕ) (m : Sent) (r : Ring) (q : List ℕ)
      → IsSendable cap m
      → Holds cap r (frame_of key m ++ q)
      → (p : Packet) × (r' : Ring) × (recv_loop (suc fuel) key pooled r
          ≡ (on_recv p ∷ (recv_loop fuel key pooled r').0, (recv_loop fuel key pooled r').1))
        × Inv.IsValid p
        × (payload p ≡ m.bytes)
        × Holds cap r' q
  loop_frame fuel m r q ok h =
      let handled = handle_frame_lem key v m (pooled-IsSendable m ok) in
      let next = recv_loop fuel key pooled (after_frame r) in
      (
        handled.0,
        after_frame r,
        recv_complete fuel key pooled h.valid (omega (arith, header, ok.not_empty)) fits enough
            ∙ ap (λ e. (e ∷ next.0, next.1)) (event ∙ handled.1),
        handled.2,
        handled.3,
        record {
          valid = after_frame-IsValid h.valid fits;
          same_cap = get_buffer_size-after_frame h.valid ∙ h.same_cap;
          holds = contents-after_frame h.valid enough ∙ removed;
        },
      )
    where
      header : first_len r ≡ length m.bytes
      header =
          ap (λ t. header_len (take net_header_size t)) h.holds
          ∙ header_len-frame key m q (omega (arith, ok.fits))

      size : first_len r + net_header_size ≡ length (frame_of key m)
      size = omega (arith, header, length-frame key m.code m.r_key m.bytes)

      fits : first_len r ≤ Ring.get_buffer_size r
      fits = omega (arith, header, ok.fits, h.same_cap)

      enough : first_len r + net_header_size ≤ length (contents r)
      enough = omega (arith, size, ap length h.holds, length-append (frame_of key m) q)

      front : take (first_len r + net_header_size) (contents r) ≡ frame_of key m
      front = ap₂ (λ n t. take n t) size h.holds ∙ take-append (frame_of key m) q

      removed : drop (first_len r + net_header_size) (contents r) ≡ q
      removed = ap₂ (λ n t. drop n t) size h.holds ∙ drop-append (frame_of key m) q

      event :
          handle_frame key
            (load_frame pooled (take (first_len r + net_header_size) (contents r)) (first_len r))
          ≡ handle_frame key (load_frame pooled (frame_of key m) (length m.bytes))
      event = ap₂ (λ t n. handle_frame key (load_frame pooled t n)) front header

  -- Enough rounds take all whole frames out and leave the start of the next.
  pub loop_frames :
      (fuel : ℕ) (done left : List Sent) (r : Ring) (partial future : List ℕ)
      → length done < fuel
      → AllSendable cap done
      → AllSendable cap left
      → Holds cap r (frames key done ++ partial)
      → partial ++ future ≡ frames key left
      → IsShort key left partial
      → Delivers done (recv_loop fuel key pooled r).0
        × Holds cap (recv_loop fuel key pooled r).1 partial
  loop_frames zero done left r partial future f ok ok' h e few = absurd (omega arith)
  loop_frames (suc fuel) [] left r partial future f ok ok' h e few =
      rw (loop_short fuel left r partial future ok' h e few) (tt, h)
  loop_frames (suc fuel) (m ∷ done) left r partial future f ok ok' h e few =
      let one = loop_frame fuel m r (frames key done ++ partial) ok.0 (record {
        valid = h.valid;
        same_cap = h.same_cap;
        holds = h.holds ∙ append_assoc (frame_of key m) (frames key done) partial;
      }) in
      let more =
        loop_frames fuel done left one.1 partial future (omega arith) ok.1 ok' one.5 e few in
      rw one.2 ((one.4, one.3, more.0), more.1)

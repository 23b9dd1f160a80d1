-- ===== src/Lan/Loop.antt =====
-- The receive loop on a ring that holds whole frames and the start of another.
use chat_server_mt.Base.{
  ℕ, zero, suc, ◌+◌, ◌-◌, ◌^◌, ◌≤◌, ◌<◌, ◌≡◌, ◌∙◌, subst, sym, ap, ap₂, refl, List, [], ◌∷◌, ◌++◌,
  ltb, if◌then◌else◌, arith, length, take, drop, take-append, drop-append, append_assoc,
  length-append, dec_lt,
}
use chat_server_mt.Packet.{Packet, lan_header_size}
use chat_server_mt.Packet.Inv
use chat_server_mt.Packet.Inv.{payload}
use chat_server_mt.Ring
use chat_server_mt.Ring.{Ring}
use chat_server_mt.Ring.Inv.{IsValid}
use chat_server_mt.Ring.Contents.{contents}
use chat_server_mt.Lan.{
  LanEvent, on_recv, disconnects, too_long, lan_header_len, load_lan_frame, lan_recv_loop,
}
use chat_server_mt.Lan.Round.{
  frame, lan_header_len-frame, loaded-IsValid, payload-loaded, first_len, after_frame, recv_short,
  recv_incomplete, recv_complete, after_frame-IsValid, contents-after_frame,
  get_buffer_size-after_frame, too_long-holds,
}

abbrev pub frames : List (List ℕ) → List ℕ
frames [] = []
frames (m ∷ ms) = frame m ++ frames ms

-- The payloads fit a packet of the pool.
abbrev pub AllFit : ℕ → List (List ℕ) → Type 0
AllFit n [] = Unit {0}
AllFit n (m ∷ ms) = (length m < n) × (length m < 2 ^ 16) × AllFit n ms

-- Not a whole frame.
abbrev pub IsPartial : List ℕ → Type 0
IsPartial q =
    lan_header_size ≤ length q
    → length q < lan_header_len (take lan_header_size q) + lan_header_size

-- OnRecv gets valid packets with these payloads, in this order. Before one that is longer than the
-- free part of a ring of `cap` bytes, which holds `k` bytes behind the frames, it disconnects.
abbrev pub Delivers : ℕ → ℕ → List (List ℕ) → List LanEvent → Type 0
Delivers cap k [] es = es ≡ []
Delivers cap k (m ∷ ms) es =
    (p : Packet) × (rest : List LanEvent) × (es
      ≡ (if ltb (cap - (length (frames (m ∷ ms)) + k)) (length m) then disconnects ∷ [] else [])
        ++ on_recv p ∷ rest)
    × (payload p ≡ m)
    × Inv.IsValid p
    × Delivers cap k ms rest

-- What the loop gives.
pub record Gives (cap : ℕ) (ms : List (List ℕ)) (partial : List ℕ) (out : List LanEvent × Ring)
    : Type 0 where
  pub delivers : Delivers cap (length partial) ms out.0
  pub left : contents out.1 ≡ partial
  pub valid : IsValid out.1

module _ {pooled : Packet} (v : Inv.IsValid pooled) where
  stops :
      (fuel : ℕ) (r : Ring)
      → IsValid r
      → IsPartial (contents r)
      → lan_recv_loop (suc fuel) pooled r ≡ ([], r)
  stops fuel r w h = elim (dec_lt (length (contents r)) lan_header_size) [
    | yes few ↦ recv_short fuel pooled w few
    | no many ↦ recv_incomplete fuel pooled w (omega arith) (h (omega arith))
  ]

  -- The first frame.
  record IsFirst (r : Ring) (m q : List ℕ) : Type 0 where
    same_len : first_len r ≡ length m
    front : take (first_len r + lan_header_size) (contents r) ≡ frame m
    behind : drop (first_len r + lan_header_size) (contents r) ≡ q
    enough : first_len r + lan_header_size ≤ length (contents r)

  contents-IsFirst :
      (r : Ring) (m q : List ℕ) → length m < 2 ^ 16 → contents r ≡ frame m ++ q → IsFirst r m q
  contents-IsFirst r m q small h =
      let e : first_len r ≡ length m =
        ap (λ t. lan_header_len (take lan_header_size t)) h ∙ lan_header_len-frame m q small in
      let n : first_len r + lan_header_size ≡ length (frame m) = omega (arith, e) in
      record {
        same_len = e;
        front = ap₂ (λ k t. take k t) n h ∙ take-append (frame m) q;
        behind = ap₂ (λ k t. drop k t) n h ∙ drop-append (frame m) q;
        enough = omega (arith, n, ap length h, length-append (frame m) q);
      }

  -- When a valid ring holds frames with the short header, whose payloads fit the packets of the
  -- pool, and then less than a whole frame, CLanClient hands valid packets with these payloads to
  -- OnRecv, in order, and leaves the rest in the ring; and before each packet that is longer than
  -- the free part of the ring it calls disconnectSession, although the frame is complete.
  pub lan_recv_loop-Gives :
      (fuel : ℕ) (ms : List (List ℕ)) (partial : List ℕ) (r : Ring)
      → IsValid r
      → contents r ≡ frames ms ++ partial
      → AllFit pooled.buffer_size ms
      → IsPartial partial
      → length ms < fuel
      → Gives (Ring.get_buffer_size r) ms partial (lan_recv_loop fuel pooled r)
  lan_recv_loop-Gives zero ms partial r w h fit part more = absurd (omega arith)
  lan_recv_loop-Gives (suc fuel) [] partial r w h fit part more =
      rw (stops fuel r w (subst IsPartial (sym h) part))
        (record { delivers = refl; left = h; valid = w })
  lan_recv_loop-Gives (suc fuel) (m ∷ ms) partial r w h fit part more =
      let q = frames ms ++ partial in
      let f = contents-IsFirst r m q fit.1 (h ∙ append_assoc (frame m) (frames ms) partial) in
      let small : first_len r < 2 ^ 16 = omega (arith, f.same_len, fit.1) in
      let g =
        lan_recv_loop-Gives fuel ms partial (after_frame r) (after_frame-IsValid w small)
          (contents-after_frame w small f.enough ∙ f.behind) fit.2 part (omega arith) in
      let packet = ap₂ (load_lan_frame pooled) f.front f.same_len in
      let test =
        ap (too_long r) f.same_len
        ∙ too_long-holds w (length m)
        ∙ ap (λ n. if ltb (Ring.get_buffer_size r - n) (length m) then disconnects ∷ [] else [])
            (ap length h ∙ length-append (frames (m ∷ ms)) partial) in
      rw (recv_complete fuel pooled w small f.enough) (record {
        delivers = (
          load_lan_frame pooled (frame m) (length m),
          (lan_recv_loop fuel pooled (after_frame r)).0,
          ap₂ (λ t p. t ++ on_recv p ∷ (lan_recv_loop fuel pooled (after_frame r)).0) test packet,
          payload-loaded v m fit.0,
          loaded-IsValid v m fit.0,
          subst
              (λ cap.
                Delivers cap (length partial) ms (lan_recv_loop fuel pooled (after_frame r)).0)
              (get_buffer_size-after_frame w) g.delivers,
        );
        left = g.left;
        valid = g.valid;
      })

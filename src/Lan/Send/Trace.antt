-- ===== src/Lan/Send/Trace.antt =====
-- What becomes of each packet in the send path of CLanClient.
use chat_server_mt.Base.{
  ℕ, zero, suc, subst, ◌+◌, ◌<◌, ◌==◌, dec_lt, ◌≡◌, ◌∙◌, ap, sym, refl, Bool, true, false, Option,
  none, some, List, [], ◌∷◌, ◌++◌, ltb, if◌then◌else◌, length, append_assoc, append-nil, arith,
}
use chat_server_mt.Packet.{Packet}
use chat_server_mt.Monitor.Reports.{wire_lan}
use chat_server_mt.Lan.Send.{
  Client, max_wsabuf, lan_send_packet, take_packets, lan_bytes, lan_send_post, sub_refs,
  lan_send_done, lan_release,
}
use chat_server_mt.Lan.Send.Moves.{
  Trace, Move, queues, posts, completes, posted, post_when, done_with, complete_when, move, run,
  start,
}

-- The sum of a number over packets.
abbrev pub sum : (Packet → ℕ) → List Packet → ℕ
sum f [] = 0
sum f (p ∷ ps) = f p + sum f ps

sum-append : (f : Packet → ℕ) (ps qs : List Packet) → sum f (ps ++ qs) ≡ sum f ps + sum f qs
sum-append f [] qs = omega arith
sum-append f (p ∷ ps) qs = omega (arith, sum-append f ps qs)

sum-sub_refs : (f : Packet → ℕ) (ps : List Packet) → sum f (sub_refs ps) ≡ sum f ps
sum-sub_refs f [] = refl
sum-sub_refs f (p ∷ ps) = omega (arith, sum-append f (sub_refs ps) (p ∷ []), sum-sub_refs f ps)

lan_bytes-append : (ps qs : List Packet) → lan_bytes (ps ++ qs) ≡ lan_bytes ps ++ lan_bytes qs
lan_bytes-append [] qs = refl
lan_bytes-append (p ∷ ps) qs =
    ap (λ t. wire_lan p ++ t) (lan_bytes-append ps qs)
    ∙ sym (append_assoc (wire_lan p) (lan_bytes ps) (lan_bytes qs))

take_packets-append : (n : ℕ) (q : List Packet) → (take_packets n q).0 ++ (take_packets n q).1 ≡ q
unfolding take_packets
take_packets-append zero q = refl
take_packets-append (suc n) [] = refl
take_packets-append (suc n) (p ∷ q) = ap (λ t. p ∷ t) (take_packets-append n q)

-- The packets of a send are there as long as it is under way.
abbrev Carries : Bool → List Packet → Type 0
Carries true ps = 0 < length ps
Carries false ps = ps ≡ []

pub record IsGood (t : Trace) : Type 0 where
  pub in_order : t.gone ++ (t.client.sent_packet ++ t.client.send_q) ≡ t.taken
  pub sent : t.out ≡ lan_bytes (t.gone ++ t.client.sent_packet)
  pub given_back : (f : Packet → ℕ) → sum f t.freed ≡ sum f t.gone
  pub carried : Carries t.under_way t.client.sent_packet
  pub alive : t.crashed ≡ false

start-IsGood : IsGood start
start-IsGood = record {
  in_order = refl;
  sent = refl;
  given_back = λ f. refl;
  carried = refl;
  alive = refl;
}

-- A first packet is taken.
take_packets-some :
    (n : ℕ) (q : List Packet) → 0 < n → 0 < length q → 0 < length (take_packets n q).0
unfolding take_packets
take_packets-some zero q pos more = absurd (omega arith)
take_packets-some (suc n) [] pos more = absurd (omega arith)
take_packets-some (suc n) (p ∷ q) pos more = omega arith

module _ (t : Trace) (g : IsGood t) where
  queue-IsGood :
      (p : Packet) (b : Bool)
      → let queued =
          if◌then◌else◌ {A = Bool × Client} b
            (true, record t.client { send_q = t.client.send_q ++ p ∷ [] })
            (false, t.client) in
        IsGood (
          let (done, c) = queued in
          record t { client = c; taken = t.taken ++ (if done then p ∷ [] else []) })
  queue-IsGood p true = record {
    in_order =
        ap (λ q. t.gone ++ q) (sym (append_assoc t.client.sent_packet t.client.send_q (p ∷ [])))
        ∙ sym (append_assoc t.gone (t.client.sent_packet ++ t.client.send_q) (p ∷ []))
        ∙ ap (λ q. q ++ p ∷ []) g.in_order;
    sent = g.sent;
    given_back = g.given_back;
    carried = g.carried;
    alive = g.alive;
  }
  queue-IsGood p false = record {
    in_order = g.in_order ∙ sym (append-nil t.taken);
    sent = g.sent;
    given_back = g.given_back;
    carried = g.carried;
    alive = g.alive;
  }

  buf_cnt : ℕ
  buf_cnt = if ltb max_wsabuf (length t.client.send_q) then max_wsabuf else length t.client.send_q

  posting : Bool → Option (List ℕ) × Client
  posting b =
      let (now, rest) = take_packets buf_cnt t.client.send_q in
      if b
      then (none, t.client)
      else (some (lan_bytes now), record { send_q = rest; sent_packet = now })

  -- sendPost with a packet in the queue.
  full-IsGood :
      t.client.sent_packet ≡ []
      → 0 < length t.client.send_q
      → let (now, rest) = take_packets buf_cnt t.client.send_q in
        IsGood (posted t (some (lan_bytes now), record { send_q = rest; sent_packet = now }))
  unfolding buf_cnt
  full-IsGood e more =
      let now = (take_packets buf_cnt t.client.send_q).0 in
      record {
        in_order =
            ap (λ r. t.gone ++ r) (take_packets-append buf_cnt t.client.send_q)
            ∙ ap (λ s. t.gone ++ (s ++ t.client.send_q)) (sym e)
            ∙ g.in_order;
        sent =
            ap (λ r. r ++ lan_bytes now)
              (g.sent ∙ ap (λ s. lan_bytes (t.gone ++ s)) e ∙ ap lan_bytes (append-nil t.gone))
            ∙ sym (lan_bytes-append t.gone now);
        given_back = g.given_back;
        carried = take_packets-some buf_cnt t.client.send_q (ground arith) more;
        alive = g.alive;
      }

  free-IsGood : t.under_way ≡ false → IsGood (posted t (lan_send_post t.client))
  unfolding lan_send_post buf_cnt posting
  free-IsGood e =
      let none_sent = subst (λ b. Carries b t.client.sent_packet) e g.carried in
      elim (dec_lt 0 (length t.client.send_q)) [
        | yes more ↦
            let found : (length t.client.send_q == 0) ≡ false = ground (arith, more) in
            subst (λ b. IsGood (posted t (posting b))) (sym found) (full-IsGood none_sent more)
        | no done ↦
            let nothing : (length t.client.send_q == 0) ≡ true = ground (arith, done) in
            subst (λ b. IsGood (posted t (posting b))) (sym nothing) g
      ]

  post-IsGood : (b : Bool) → t.under_way ≡ b → IsGood (post_when t b)
  post-IsGood true e = g
  post-IsGood false e = free-IsGood e

  finished :
      IsGood
        (done_with t (some (sub_refs t.client.sent_packet, record t.client { sent_packet = [] })))
  finished = record {
    in_order = append_assoc t.gone t.client.sent_packet t.client.send_q ∙ g.in_order;
    sent = g.sent ∙ ap lan_bytes (sym (append-nil (t.gone ++ t.client.sent_packet)));
    given_back = λ f. omega (
      arith,
      sum-append f t.freed (sub_refs t.client.sent_packet),
      sum-sub_refs f t.client.sent_packet,
      sum-append f t.gone t.client.sent_packet,
      g.given_back f,
    );
    carried = refl;
    alive = g.alive;
  }

  complete-IsGood : (b : Bool) → t.under_way ≡ b → IsGood (complete_when t b)
  complete-IsGood false e = g
  complete-IsGood true e = subst (λ o. IsGood (done_with t o)) (sym done) finished
    where
      done :
          lan_send_done t.client
          ≡ some (sub_refs t.client.sent_packet, record t.client { sent_packet = [] })
      done =
          let some_sent = subst (λ b. Carries b t.client.sent_packet) e g.carried in
          unfold lan_send_done in ground (arith, some_sent)

  move-IsGood : (m : Move) → IsGood (move m t)
  unfolding move lan_send_packet
  move-IsGood (queues p) = queue-IsGood p (ltb (length t.client.send_q) 200)
  move-IsGood posts = post-IsGood t.under_way refl
  move-IsGood completes = complete-IsGood t.under_way refl

run-IsGood : (ms : List Move) (t : Trace) → IsGood t → IsGood (run ms t)
unfolding run
run-IsGood [] t g = g
run-IsGood (m ∷ ms) t g = run-IsGood ms (move m t) (move-IsGood t g m)

-- However SendPacket, sendPost and completions of a send under way follow each other in CLanClient,
-- the packets of completed sends, of the send under way and of the queue are those that the queue
-- took, in order; the bytes handed to WSASend are the frames of the first two, in order; no
-- completion comes to CrashDump::Crash(); SubRef was called for each packet of a completed send as
-- often as it was sent; and after release for each packet as often as it was taken.
pub lan_send_lem :
    (f : Packet → ℕ) (ms : List Move)
    → let t = run ms start in
      (t.gone ++ (t.client.sent_packet ++ t.client.send_q) ≡ t.taken)
      × (t.out ≡ lan_bytes (t.gone ++ t.client.sent_packet))
      × (t.crashed ≡ false)
      × (sum f t.freed ≡ sum f t.gone)
      × (sum f (t.freed ++ lan_release t.client) ≡ sum f t.taken)
unfolding lan_release
lan_send_lem f ms =
    let t = run ms start in
    let g = run-IsGood ms start start-IsGood in
    (
      g.in_order,
      g.sent,
      g.alive,
      g.given_back f,
      omega (
        arith,
        sum-append f t.freed (t.client.send_q ++ sub_refs t.client.sent_packet),
        sum-append f t.client.send_q (sub_refs t.client.sent_packet),
        sum-sub_refs f t.client.sent_packet,
        g.given_back f,
        ap (sum f) g.in_order,
        sum-append f t.gone (t.client.sent_packet ++ t.client.send_q),
        sum-append f t.client.sent_packet t.client.send_q,
      ),
    )

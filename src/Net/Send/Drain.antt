-- ===== src/Net/Send/Drain.antt =====
-- Rounds of sendPost and a completion of everything posted.
use chat_server_mt.Base.{
  ap₂, ℕ, ◌≤◌, ◌<◌, ◌≡◌, ◌⊎◌, inl, inr, dec_lt, ◌∙◌, ap, sym, refl, subst, Option, none, some, List,
  [], ◌∷◌, ◌++◌, append-nil, suc, zero, drop-all, arith, length, min,
}
use chat_server_mt.Packet.{Packet}
use chat_server_mt.Ring.{Ring, move_front}
use chat_server_mt.Ring.Inv.{IsValid}
use chat_server_mt.Ring.Contents.{contents, length-contents}
use chat_server_mt.Ring.Segments.{SocketIo, contents-move_front}
use chat_server_mt.Net.Send.{send_post, send_done}
use chat_server_mt.Net.Send.Stream.{frames, frames-none, stream}
use chat_server_mt.Net.Send.Link.{
  Link, Flies, Move, posts, completes, move, run, post_when, complete_when, IsGood, run-IsGood,
  idle-IsGood, move-IsGood, post_filled, idle,
}
use chat_server_mt.Net.Send.Fill.{AllFit, fill_loop-takes}
use chat_server_mt.Net.Send.Round.{
  all_bytes, rounds, Rests, emptied, emptied-Rests, emptied-fewer, emptied-taken,
}

abbrev Drained : List Packet → Link → Type 0
Drained taken l = (stream l.sender ≡ []) × (l.taken ≡ taken) × IsGood l

module _ (io : SocketIo) where
  post_when-filled :
      (l : Link) → 0 < length l.sender.send_q → post_when io l none ≡ post_filled io l
  unfolding send_post
  post_when-filled l more = ground arith

  post_when-idle :
      (l : Link) → length l.sender.send_q ≤ 0 → post_when io l none ≡ record l { in_flight = none }
  unfolding send_post
  post_when-idle l few = ground arith

  next_round :
      (l : Link) (g : IsGood l) (fit : AllFit l.sender.send_buffer.buf_size l.sender.send_q)
      (ms : List Move)
      → l.in_flight ≡ none
      → 0 < length l.sender.send_q
      → run io (posts ∷ completes all_bytes ∷ ms) l ≡ run io ms (emptied io l g fit)
  unfolding run move emptied
  next_round l g fit ms quiet more =
      ap (λ o. run io ms (move io (completes all_bytes) (post_when io l o))) quiet
      ∙ ap (λ k. run io ms (move io (completes all_bytes) k)) (post_when-filled l more)

  -- Without a packet there is no send, and no completion of one.
  no_round :
      (l : Link) (ms : List Move)
      → l.in_flight ≡ none
      → length l.sender.send_q ≤ 0
      → run io (posts ∷ completes all_bytes ∷ ms) l ≡ run io ms l
  unfolding run move
  no_round l ms quiet few =
      ap (λ o. run io ms (move io (completes all_bytes) (post_when io l o))) quiet
      ∙ ap (λ k. run io ms (move io (completes all_bytes) k)) (post_when-idle l few)
      ∙ ap (λ o. run io ms (record l { in_flight = o })) (sym quiet)

  emptied-takes :
      (l : Link) (rest : Rests l)
      → 0 < length l.sender.send_q
      → length (emptied io l rest.good rest.fit).sender.send_q < length l.sender.send_q
  unfolding emptied move send_done
  emptied-takes l rest more =
      fill_loop-takes l.sender.send_q l.sender.send_buffer l.sender.send_packet rest.good.ring
        rest.good.queue rest.fit rest.empty more

  full_round :
      (n : ℕ) (l : Link) (g : IsGood l) (fit : AllFit l.sender.send_buffer.buf_size l.sender.send_q)
      → l.in_flight ≡ none
      → 0 < length l.sender.send_q
      → Drained (emptied io l g fit).taken (run io (rounds n) (emptied io l g fit))
      → Drained l.taken (run io (rounds (suc n)) l)
  full_round n l g fit quiet more w =
      subst (Drained l.taken) (sym (next_round l g fit (rounds n) quiet more))
        (w.0, w.1 ∙ emptied-taken io l g fit, w.2)

  -- As many rounds as there are packets.
  rounds-Drained :
      (n : ℕ) (l : Link)
      → Rests l
      → length l.sender.send_q ≤ n
      → Drained l.taken (run io (rounds n) l)
  unfolding run
  rounds-Drained zero l rest few =
      (ap₂ (λ t u. t ++ u) rest.empty (frames-none l.sender.send_q few), refl, rest.good)
  rounds-Drained (suc n) l rest few = elim (dec_lt 0 (length l.sender.send_q)) [
    | yes more ↦ full_round n l rest.good rest.fit rest.none_sent more (
        rounds-Drained n (emptied io l rest.good rest.fit) (emptied-Rests io l rest.good rest.fit)
          (omega (arith, emptied-takes l rest more)))
    | no done ↦
        subst (Drained l.taken) (sym (no_round l (rounds n) rest.none_sent (omega (arith, done))))
          (rounds-Drained n l rest (omega (arith, done)))
  ]

  -- A completion when one is awaited.
  record IsQuiet (l l' : Link) : Type 0 where
    none_sent : l'.in_flight ≡ none
    queue : l'.sender.send_q ≡ l.sender.send_q
    size : l'.sender.send_buffer.buf_size ≡ l.sender.send_buffer.buf_size
    taken : l'.taken ≡ l.taken

  complete-IsQuiet :
      (n : ℕ) (l : Link) (o : Option (List ℕ)) → l.in_flight ≡ o → IsQuiet l (complete_when n l o)
  unfolding send_done move_front
  complete-IsQuiet n l none e = record { none_sent = e; queue = refl; size = refl; taken = refl }
  complete-IsQuiet n l (some _) e = record {
    none_sent = refl;
    queue = refl;
    size = refl;
    taken = refl;
  }

  all-Drained :
      (n : ℕ) (l : Link)
      → IsGood l
      → AllFit l.sender.send_buffer.buf_size l.sender.send_q
      → l.in_flight ≡ none
      → (contents l.sender.send_buffer ≡ []) ⊎ (0 < length l.sender.send_q)
      → length l.sender.send_q ≤ n
      → Drained l.taken (run io (rounds (suc n)) l)
  all-Drained n l g fit quiet (inl empty) few =
      rounds-Drained (suc n) l (record { good = g; none_sent = quiet; empty = empty; fit = fit })
        (omega arith)
  all-Drained n l g fit quiet (inr more) few = full_round n l g fit quiet more (
      rounds-Drained n (emptied io l g fit) (emptied-Rests io l g fit)
        (omega (arith, emptied-fewer io l g fit, few)))

  -- A completion of everything leaves an empty ring.
  complete-clears :
      (l : Link) (o : Option (List ℕ))
      → IsGood l
      → Flies o l.sender.send_buffer
      → (o ≡ none → (contents l.sender.send_buffer ≡ []) ⊎ (0 < length l.sender.send_q))
      → let s = (complete_when all_bytes l o).sender in
        (contents s.send_buffer ≡ []) ⊎ (0 < length s.send_q)
  unfolding send_done
  complete-clears l none g f unstalled = unstalled refl
  complete-clears l (some bytes) g f unstalled = inl (
      contents-move_front k g.ring (omega (arith, same, size))
      ∙ drop-all k (contents l.sender.send_buffer)
          (omega (arith, same, size, g.ring.fill_in, g.ring.small)))
    where
      k : ℕ
      k = min all_bytes (length bytes)

      same : length bytes ≡ length (contents l.sender.send_buffer)
      same = ap length f

      size : length (contents l.sender.send_buffer) ≡ l.sender.send_buffer.fill_size
      size = length-contents l.sender.send_buffer

  Drained-out : {taken : List Packet} (l : Link) → Drained taken l → l.out ≡ frames taken
  Drained-out l d =
      sym (append-nil l.out) ∙ ap (λ t. l.out ++ t) (sym d.0) ∙ d.2.sent ∙ ap frames d.1

  -- After any sequence of calls of SendPacket with valid packets short of 2^32 bytes, of sendPost
  -- and of completions of sends, from an empty valid ring, if each packet in the queue fits the
  -- empty ring, and if, when no send is under way, the ring is empty or a packet is in the queue,
  -- then the completion of the send under way and one more round of sendPost and its completion
  -- than there are packets in the queue bring the frames of all the packets taken onto the wire,
  -- and nothing else.
  pub drain_lem :
      (ms : List Move) (r : Ring)
      → IsValid r
      → contents r ≡ []
      → AllFit (run io ms (idle r)).sender.send_buffer.buf_size (run io ms (idle r)).sender.send_q
      → ((run io ms (idle r)).in_flight ≡ none
          → (contents (run io ms (idle r)).sender.send_buffer ≡ [])
            ⊎ (0 < length (run io ms (idle r)).sender.send_q))
      → let l = run io ms (idle r) in
        let l' = run io (completes all_bytes ∷ rounds (suc (length l.sender.send_q))) l in
        (l'.taken ≡ l.taken) × (l'.out ≡ frames l.taken)
  unfolding run move
  drain_lem ms r v empty fit unstalled =
      let l = run io ms (idle r) in
      let g = run-IsGood io ms (idle r) (idle-IsGood r v empty) in
      let c = complete_when all_bytes l l.in_flight in
      let q = complete-IsQuiet all_bytes l l.in_flight refl in
      let d =
        all-Drained (length l.sender.send_q) c (move-IsGood io l g (completes all_bytes))
          (subst (λ n. AllFit n c.sender.send_q) (sym q.size)
            (subst (AllFit l.sender.send_buffer.buf_size) (sym q.queue) fit))
          q.none_sent (complete-clears l l.in_flight g g.flight unstalled)
          (omega (arith, ap length q.queue)) in
      (d.1 ∙ q.taken, Drained-out _ d ∙ ap frames q.taken)

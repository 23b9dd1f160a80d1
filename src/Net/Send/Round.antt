-- ===== src/Net/Send/Round.antt =====
-- One call of sendPost that finds a packet, and the completion of everything that it posted.
use chat_server_mt.Base.{
  ℕ, ◌^◌, ◌≤◌, ◌≡◌, ◌∙◌, ap, sym, refl, subst, none, List, [], ◌∷◌, suc, zero, drop-all, arith,
  length, min,
}
use chat_server_mt.Ring.{Ring, move_front}
use chat_server_mt.Ring.Inv.{IsValid}
use chat_server_mt.Ring.Contents.{contents, length-contents}
use chat_server_mt.Ring.Segments.{SocketIo, send_buffers, gather-send_buffers, contents-move_front}
use chat_server_mt.Net.Send.{Sender, fill_loop, send_done}
use chat_server_mt.Net.Send.Stream.{fill_loop-IsFilled}
use chat_server_mt.Net.Send.Link.{
  Link, Move, posts, completes, move, IsGood, move-IsGood, post_filled, post_filled-IsGood,
}
use chat_server_mt.Net.Send.Fill.{AllFit, fill_loop-Leaves}

-- More than any ring holds.
abbrev pub all_bytes : ℕ
all_bytes = 2 ^ 31

-- Rounds of a send and its completion.
abbrev pub rounds : ℕ → List Move
rounds zero = []
rounds (suc n) = posts ∷ completes all_bytes ∷ rounds n

-- Nothing is under way, and nothing is in the ring.
pub record Rests (l : Link) : Type 0 where
  pub good : IsGood l
  pub none_sent : l.in_flight ≡ none
  pub empty : contents l.sender.send_buffer ≡ []
  pub fit : AllFit l.sender.send_buffer.buf_size l.sender.send_q

module _ (io : SocketIo) (l : Link) (g : IsGood l)
    (fit : AllFit l.sender.send_buffer.buf_size l.sender.send_q) where
  filled : Sender
  filled = fill_loop l.sender.send_q l.sender.send_buffer l.sender.send_packet

  unfoldable pub emptied : Link
  emptied = move io (completes all_bytes) (post_filled io l)

  -- The ring as the loop leaves it, and the bytes that are asked for.
  ring : Ring
  unfolding filled
  ring = filled.send_buffer

  taken_out : ℕ
  taken_out = min all_bytes (length (io.gather ring.buf (send_buffers ring)))

  ring-IsValid : IsValid ring
  unfolding filled ring
  ring-IsValid = (fill_loop-IsFilled l.sender.send_q l.sender.send_packet g.ring g.queue).ring

  all_taken : taken_out ≡ ring.fill_size
  unfolding taken_out
  all_taken =
      let v = ring-IsValid in
      omega (arith, ap length (gather-send_buffers io v), length-contents ring)

  emptied-empty : contents emptied.sender.send_buffer ≡ []
  unfolding emptied move send_done filled ring taken_out
  emptied-empty =
      contents-move_front taken_out ring-IsValid (omega (arith, all_taken))
      ∙ drop-all taken_out (contents ring) (omega (arith, all_taken, length-contents ring))

  pub emptied-Rests : Rests emptied
  unfolding emptied move send_done move_front filled
  emptied-Rests =
      let w = fill_loop-Leaves l.sender.send_q l.sender.send_buffer l.sender.send_packet fit in
      record {
        good = move-IsGood io (post_filled io l) (post_filled-IsGood io l g) (completes all_bytes);
        none_sent = refl;
        empty = emptied-empty;
        fit = subst (λ k. AllFit k filled.send_q) (sym w.size) w.fit;
      }

  pub emptied-fewer : length emptied.sender.send_q ≤ length l.sender.send_q
  unfolding emptied move send_done
  emptied-fewer =
      (fill_loop-Leaves l.sender.send_q l.sender.send_buffer l.sender.send_packet fit).fewer

  pub emptied-taken : emptied.taken ≡ l.taken
  unfolding emptied move send_done
  emptied-taken = refl

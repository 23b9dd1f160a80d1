-- ===== src/Net/Send/Link.antt =====
-- The send path of CNetServer as it runs: packets come in, and sends are posted and completed, in
-- any order that the send flag allows.
use chat_server_mt.Base.{
  ℕ, ◌≤◌, ◌≡◌, ◌∙◌, ap, sym, Bool, true, false, Option, none, some, List, [], ◌∷◌, ◌++◌,
  append_assoc, append-nil, arith, length, min, take, drop, take-append-drop, if◌then◌else◌, ltb,
  ◌==◌,
}
use chat_server_mt.Packet.{Packet}
use chat_server_mt.Ring.{Ring, move_front}
use chat_server_mt.Ring.Inv.{IsValid, move_front-IsValid}
use chat_server_mt.Ring.Contents.{contents, length-contents}
use chat_server_mt.Ring.Segments.{SocketIo, send_buffers, gather-send_buffers, contents-move_front}
use chat_server_mt.Net.Send.{Sender, fill_loop, max_send_q, enqueue_packet, send_post, send_done}
use chat_server_mt.Net.Send.Stream.{
  IsSendable, AllSendable, AllSendable-append, frames, frames-append, stream, fill_loop-IsFilled,
}

-- The send path between two threads' turns: what WSASend was given and has not completed, and,
-- for the statements, the packets that the queue took and the bytes that went out.
pub record Link : Type 0 where
  pub sender : Sender
  pub in_flight : Option (List ℕ)
  pub taken : List Packet
  pub out : List ℕ

-- SendPacket, sendPost, and the completion of at most `n` of the bytes that WSASend was given.
pub data Move : Type 0 where
  queues : (p : Packet) → IsSendable p → Move
  posts : Move
  completes : ℕ → Move

abbrev pub post_when : SocketIo → Link → Option (List ℕ) → Link
post_when io l none =
    let (asked, s) = send_post io l.sender in record l { sender = s; in_flight = asked }
post_when io l (some _) = l

-- The session when sendPost found a packet.
abbrev pub post_filled : SocketIo → Link → Link
post_filled io l =
    let s = fill_loop l.sender.send_q l.sender.send_buffer l.sender.send_packet in
    record l {
      sender = s;
      in_flight = some (io.gather s.send_buffer.buf (send_buffers s.send_buffer));
    }

abbrev pub complete_when : ℕ → Link → Option (List ℕ) → Link
complete_when n l none = l
complete_when n l (some bytes) = record l {
  sender = (send_done (min n (length bytes)) l.sender).0;
  in_flight = none;
  out = l.out ++ take (min n (length bytes)) bytes;
}

unfoldable pub move : SocketIo → Move → Link → Link
move io (queues p _) l =
    let (done, s) = enqueue_packet p l.sender in
    record l { sender = s; taken = l.taken ++ (if done then p ∷ [] else []) }
move io posts l = post_when io l l.in_flight
move io (completes n) l = complete_when n l l.in_flight

unfoldable pub run : SocketIo → List Move → Link → Link
unfolding move
run io [] l = l
run io (m ∷ ms) l = run io ms (move io m l)

-- A session that sends nothing and has nothing to send.
abbrev pub idle : Ring → Link
idle r = record {
  sender = record { send_q = []; send_buffer = r; send_packet = 0 };
  in_flight = none;
  taken = [];
  out = [];
}

-- WSASend was given what the ring holds.
abbrev pub Flies : Option (List ℕ) → Ring → Type 0
Flies none r = Unit {0}
Flies (some bytes) r = bytes ≡ contents r

-- The ring and the queue hold, behind what went out, the frames of the packets taken.
pub record IsGood (l : Link) : Type 0 where
  pub ring : IsValid l.sender.send_buffer
  pub queue : AllSendable l.sender.send_q
  pub flight : Flies l.in_flight l.sender.send_buffer
  pub sent : l.out ++ stream l.sender ≡ frames l.taken

pub idle-IsGood : (r : Ring) → IsValid r → contents r ≡ [] → IsGood (idle r)
idle-IsGood r v empty = record {
  ring = v;
  queue = tt;
  flight = tt;
  sent = append-nil (contents r) ∙ empty;
}

module _ (io : SocketIo) (l : Link) (g : IsGood l) where
  queue-IsGood :
      (p : Packet)
      → IsSendable p
      → (b : Bool)
      → let queued =
          if◌then◌else◌ {A = Bool × Sender} b
            (true, record l.sender { send_q = l.sender.send_q ++ p ∷ [] })
            (false, l.sender) in
        IsGood (
          let (done, s) = queued in
          record l { sender = s; taken = l.taken ++ (if done then p ∷ [] else []) })
  queue-IsGood p s true = record {
    ring = g.ring;
    queue = AllSendable-append l.sender.send_q g.queue s;
    flight = g.flight;
    sent =
        ap (λ t. l.out ++ (contents l.sender.send_buffer ++ t))
          (frames-append l.sender.send_q (p ∷ []))
        ∙ ap (λ t. l.out ++ t)
            (sym (
              append_assoc (contents l.sender.send_buffer) (frames l.sender.send_q)
                (frames (p ∷ []))))
        ∙ sym (append_assoc l.out (stream l.sender) (frames (p ∷ [])))
        ∙ ap (λ t. t ++ frames (p ∷ [])) g.sent
        ∙ sym (frames-append l.taken (p ∷ []));
  }
  queue-IsGood p s false = record {
    ring = g.ring;
    queue = g.queue;
    flight = g.flight;
    sent = g.sent ∙ ap frames (sym (append-nil l.taken));
  }

  pub post_filled-IsGood : IsGood (post_filled io l)
  post_filled-IsGood =
      let w = fill_loop-IsFilled l.sender.send_q l.sender.send_packet g.ring g.queue in
      record {
        ring = w.ring;
        queue = w.queue;
        flight = gather-send_buffers io w.ring;
        sent = ap (λ t. l.out ++ t) w.same ∙ g.sent;
      }

  asked-IsGood :
      (b : Bool)
      → let full = post_filled io l in
        let posted =
          if◌then◌else◌ {A = Option (List ℕ) × Sender} b
            (none, l.sender)
            (full.in_flight, full.sender) in
        IsGood (let (asked, s) = posted in record l { sender = s; in_flight = asked })
  asked-IsGood true = record { ring = g.ring; queue = g.queue; flight = tt; sent = g.sent }
  asked-IsGood false = post_filled-IsGood

  post-IsGood : (o : Option (List ℕ)) → Flies o l.sender.send_buffer → IsGood (post_when io l o)
  unfolding send_post
  post-IsGood (some _) f = g
  post-IsGood none f = asked-IsGood (length l.sender.send_q == 0)

  complete-IsGood :
      (n : ℕ) (o : Option (List ℕ)) → Flies o l.sender.send_buffer → IsGood (complete_when n l o)
  unfolding send_done
  complete-IsGood n none f = g
  complete-IsGood n (some bytes) f = record {
    ring = move_front-IsValid k few g.ring;
    queue = g.queue;
    flight = tt;
    sent =
        append_assoc l.out (take k bytes) _
        ∙ ap (λ t. l.out ++ t) (sym (append_assoc (take k bytes) _ (frames l.sender.send_q)))
        ∙ ap (λ t. l.out ++ (t ++ frames l.sender.send_q)) whole
        ∙ g.sent;
  }
    where
      k : ℕ
      k = min n (length bytes)

      few : k ≤ l.sender.send_buffer.fill_size
      few = omega (arith, ap length f, length-contents l.sender.send_buffer)

      whole :
          take k bytes ++ contents (move_front l.sender.send_buffer k)
          ≡ contents l.sender.send_buffer
      whole =
          ap (λ t. take k bytes ++ t) (contents-move_front k g.ring few)
          ∙ ap (λ t. take k bytes ++ drop k t) (sym f)
          ∙ take-append-drop k bytes
          ∙ f

  pub move-IsGood : (m : Move) → IsGood (move io m l)
  unfolding move enqueue_packet
  move-IsGood (queues p s) = queue-IsGood p s (ltb (length l.sender.send_q) max_send_q)
  move-IsGood posts = post-IsGood l.in_flight g.flight
  move-IsGood (completes n) = complete-IsGood n l.in_flight g.flight

pub run-IsGood : (io : SocketIo) (ms : List Move) (l : Link) → IsGood l → IsGood (run io ms l)
unfolding run
run-IsGood io [] l g = g
run-IsGood io (m ∷ ms) l g = run-IsGood io ms (move io m l) (move-IsGood io l g m)

-- However SendPacket, sendPost and completions of sends of any number of bytes follow each other,
-- starting with an empty valid ring, and if every packet queued is valid and short of 2^32 bytes,
-- the bytes that went out, then those in the ring, then the frames of the packets in the queue are
-- the frames of the packets that the queue took, in order: no byte is lost, repeated or out of
-- order.
pub run_lem :
    (io : SocketIo) (ms : List Move) (r : Ring)
    → IsValid r
    → contents r ≡ []
    → let l = run io ms (idle r) in l.out ++ stream l.sender ≡ frames l.taken
run_lem io ms r v empty = (run-IsGood io ms (idle r) (idle-IsGood r v empty)).sent

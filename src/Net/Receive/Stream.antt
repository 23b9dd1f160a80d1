-- ===== src/Net/Receive/Stream.antt =====
-- The receives of a whole connection (runIoThread in CNetServer.cpp).
use chat_server_mt.Base.{
  ℕ, ◌+◌, ◌^◌, ◌≤◌, ◌<◌, ◌≡◌, ◌∙◌, ap, sym, refl, subst, List, [], ◌∷◌, ◌++◌, arith, length,
  append_assoc, append-nil, length-append,
}
use chat_server_mt.Packet.{Packet}
use chat_server_mt.Packet.Inv
use chat_server_mt.Packet.Inv.{payload}
use chat_server_mt.Packet.Codec.{length-frame}
use chat_server_mt.Ring
use chat_server_mt.Ring.{Ring}
use chat_server_mt.Ring.Inv.{IsValid}
use chat_server_mt.Ring.Contents.{contents, length-contents}
use chat_server_mt.Ring.Segments.{SocketIo, received, received-IsValid, contents-received}
use chat_server_mt.Net.Receive.{Event, recv_loop}
use chat_server_mt.Net.Receive.Loaded.{Sent, frame_of}
use chat_server_mt.Net.Receive.Cuts.{
  frames, AllSendable, Delivers, Delivers-append, IsShort, Arrived, arrived,
}
use chat_server_mt.Net.Receive.Loop.{Holds, loop_frames}

-- A completed receive: the socket's bytes are in the ring, and the loop runs until it breaks.
unfoldable pub on_recv_completion : SocketIo → ℕ → Packet → Ring → List ℕ → List Event × Ring
on_recv_completion io key pooled r bytes =
    let r' = received io r bytes in recv_loop (Ring.get_fill_size r' + 1) key pooled r'

-- The receives of a connection, one after the other.
unfoldable pub recv_all : SocketIo → ℕ → Packet → Ring → List (List ℕ) → List Event × Ring
recv_all io key pooled r [] = ([], r)
recv_all io key pooled r (c ∷ cs) =
    let (es, r') = on_recv_completion io key pooled r c in
    let (fs, r'') = recv_all io key pooled r' cs in (es ++ fs, r'')

-- WSARecv completes with at least one byte, and no more than the posted buffers hold.
abbrev pub Fit : SocketIo → ℕ → Packet → Ring → List (List ℕ) → Type 0
Fit io key pooled r [] = Unit {0}
Fit io key pooled r (c ∷ cs) =
    (0 < length c)
    × (length c ≤ Ring.get_empty_size r)
    × Fit io key pooled (on_recv_completion io key pooled r c).1 cs

abbrev pub joined : List (List ℕ) → List ℕ
joined [] = []
joined (c ∷ cs) = c ++ joined cs

AllSendable-split :
    (cap : ℕ) (ms ns : List Sent)
    → AllSendable cap (ms ++ ns)
    → AllSendable cap ms × AllSendable cap ns
AllSendable-split cap [] ns h = (tt, h)
AllSendable-split cap (m ∷ ms) ns h =
    let rest = AllSendable-split cap ms ns h.1 in ((h.0, rest.0), rest.1)

-- A frame takes up at least a byte.
length-le-frames : (key : ℕ) (ms : List Sent) → length ms ≤ length (frames key ms)
length-le-frames key [] = omega arith
length-le-frames key (m ∷ ms) = omega (
  arith,
  length-le-frames key ms,
  length-append (frame_of key m) (frames key ms),
  length-frame key m.code m.r_key m.bytes,
)

module _ (io : SocketIo) (key cap : ℕ) {pooled : Packet} (v : Inv.IsValid pooled)
    (big : cap ≤ pooled.buffer_size) (small : cap < 2 ^ 16) where
  completion_lem :
      (ms : List Sent) (r : Ring) (partial c future : List ℕ)
      → AllSendable cap ms
      → Holds cap r partial
      → 0 < length c
      → length c ≤ Ring.get_empty_size r
      → partial ++ (c ++ future) ≡ frames key ms
      → (a : Arrived key ms (partial ++ c) future) × Delivers a.done
          (on_recv_completion io key pooled r c).0
        × Holds cap (on_recv_completion io key pooled r c).1 a.partial
  unfolding on_recv_completion received Ring.move_rear Ring.get_buffer_size Ring.get_fill_size
  completion_lem ms r partial c future ok h pos room e =
      let both =
        loop_frames key cap v big small (Ring.get_fill_size r' + 1) a.done a.left r' a.partial
          future fuel sendable.0 sendable.1 held a.coming a.short in
      (a, both.0, both.1)
    where
      r' : Ring
      r' = received io r c

      a : Arrived key ms (partial ++ c) future
      a = arrived key ms (partial ++ c) future (append_assoc partial c future ∙ e)

      sendable : AllSendable cap a.done × AllSendable cap a.left
      sendable = AllSendable-split cap a.done a.left (subst (AllSendable cap) a.sent ok)

      held : Holds cap r' (frames key a.done ++ a.partial)
      held = record {
        valid = received-IsValid io r c h.valid room pos;
        same_cap = h.same_cap;
        holds = contents-received io r c h.valid room pos ∙ ap (λ t. t ++ c) h.holds ∙ a.held;
      }

      fuel : length a.done < Ring.get_fill_size r' + 1
      fuel = omega (
        arith,
        length-contents r',
        ap length held.holds,
        length-append (frames key a.done) a.partial,
        length-le-frames key a.done,
      )

-- What a run of receives has delivered of `ms`, and what the ring holds of the rest.
record Progress (key cap : ℕ) (ms : List Sent) (future : List ℕ) (out : List Event × Ring)
    : Type 0 where
  done : List Sent
  left : List Sent
  partial : List ℕ
  sent : ms ≡ done ++ left
  delivered : Delivers done out.0
  held : Holds cap out.1 partial
  coming : partial ++ future ≡ frames key left
  short : IsShort key left partial

module _ (io : SocketIo) (key cap : ℕ) {pooled : Packet} (v : Inv.IsValid pooled)
    (big : cap ≤ pooled.buffer_size) (small : cap < 2 ^ 16) where
  start : (ms : List Sent) → IsShort key ms []
  start [] = refl
  start (m ∷ ms) = omega (arith, length-frame key m.code m.r_key m.bytes)

  recv_all-Progress :
      (cs : List (List ℕ)) (ms : List Sent) (r : Ring) (partial future : List ℕ)
      → AllSendable cap ms
      → Holds cap r partial
      → IsShort key ms partial
      → partial ++ (joined cs ++ future) ≡ frames key ms
      → Fit io key pooled r cs
      → Progress key cap ms future (recv_all io key pooled r cs)
  unfolding recv_all
  recv_all-Progress [] ms r partial future ok h few e fit = record {
    done = [];
    left = ms;
    partial = partial;
    sent = refl;
    delivered = tt;
    held = h;
    coming = e;
    short = few;
  }
  recv_all-Progress (c ∷ cs) ms r partial future ok h few e fit =
      let one =
        completion_lem io key cap v big small ms r partial c (joined cs ++ future) ok h fit.0 fit.1
          (ap (λ t. partial ++ t) (sym (append_assoc c (joined cs) future)) ∙ e) in
      let a = one.0 in
      let sendable = AllSendable-split cap a.done a.left (subst (AllSendable cap) a.sent ok) in
      let more =
        recv_all-Progress cs a.left (on_recv_completion io key pooled r c).1 a.partial future
          sendable.1 one.2 a.short a.coming fit.2 in
      record {
        done = a.done ++ more.done;
        left = more.left;
        partial = more.partial;
        sent =
            a.sent
            ∙ ap (λ t. a.done ++ t) more.sent
            ∙ sym (append_assoc a.done more.done more.left);
        delivered = Delivers-append a.done more.done _ _ one.1 more.delivered;
        held = more.held;
        coming = more.coming;
        short = more.short;
      }

  all_arrived :
      (left : List Sent) (partial : List ℕ)
      → partial ++ [] ≡ frames key left
      → IsShort key left partial
      → left ≡ []
  all_arrived [] partial e few = refl
  all_arrived (m ∷ ms) partial e few = absurd (
      omega (
        arith,
        ap length e,
        length-append partial [],
        length-append (frame_of key m) (frames key ms),
      ))

  -- However a stream of encoded packets is cut into receives of at least one byte that fit the free
  -- part of the ring, runIoThread hands each packet to OnRecv exactly once, in order, with the
  -- payload it was sent with; nothing is disconnected and no byte is left over. The ring is valid
  -- and empty at first, each frame fits the ring and has a payload that is not empty, and the ring
  -- has less than 65536 bytes and no more than a valid pooled packet.
  pub recv_all_lem :
      (ms : List Sent) (cs : List (List ℕ)) {r : Ring}
      → IsValid r
      → Ring.get_buffer_size r ≡ cap
      → contents r ≡ []
      → AllSendable cap ms
      → joined cs ≡ frames key ms
      → Fit io key pooled r cs
      → Delivers ms (recv_all io key pooled r cs).0
        × (contents (recv_all io key pooled r cs).1 ≡ [])
  recv_all_lem ms cs {r} valid same_cap empty ok e fit = (
    subst (λ t. Delivers t (recv_all io key pooled r cs).0) (sym everything) p.delivered,
    p.held.holds ∙ nothing,
  )
    where
      p : Progress key cap ms [] (recv_all io key pooled r cs)
      p =
          recv_all-Progress cs ms r [] [] ok
            (record { valid = valid; same_cap = same_cap; holds = empty }) (start ms)
            (append-nil (joined cs) ∙ e) fit

      no_left : p.left ≡ []
      no_left = all_arrived p.left p.partial p.coming p.short

      everything : ms ≡ p.done
      everything = p.sent ∙ ap (λ t. p.done ++ t) no_left ∙ append-nil p.done

      nothing : p.partial ≡ []
      nothing = sym (append-nil p.partial) ∙ p.coming ∙ ap (frames key) no_left

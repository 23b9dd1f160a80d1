-- ===== src/Ring/Segments.antt =====
-- The buffers that CNetServer hands to WSARecv and WSASend: the free and the used part of a ring,
-- as one or two pieces of its array, each an offset and a length.
use chat_server_mt.Base.{
  ℕ, ◌+◌, ◌-◌, ◌≤◌, ◌<◌, ◌≡◌, ◌∙◌, ap, sym, refl, List, [], ◌∷◌, ◌++◌, ltb, if◌then◌else◌, arith,
  sub32, length, take, drop, take-all, drop-all, blit-nil, ap₂, blit, slice, length-drop,
  take-length, mod_one_round, add32,
}
use chat_server_mt.Ring.{
  Ring, get_empty_size, get_fill_size, direct_enque_size, direct_deque_size, move_rear, move_front,
  read_front,
}
use chat_server_mt.Fifo
use chat_server_mt.Ring.{enqueue, enqueue_flat, enqueue_split, get_buffer_size}
use chat_server_mt.Ring.Refine.{enqueue_refines}
use chat_server_mt.Ring.Inv.{enqueue-IsValid}
use chat_server_mt.Ring.Contents.{contents-drop}
use chat_server_mt.Base.{subst}
use chat_server_mt.Ring.Inv.{IsValid}
use chat_server_mt.Ring.Contents.{contents, read_front_lem, length-contents}

-- As `recvPost` fills its `wsabuf`.
unfoldable pub recv_buffers : Ring → List (ℕ × ℕ)
recv_buffers r =
    let empty_size = get_empty_size r in
    let size1 = direct_enque_size r in
    (r.rear, size1) ∷ (if ltb size1 empty_size then (0, sub32 empty_size size1) ∷ [] else [])

-- As `sendPost` fills its `wsabuf`.
unfoldable pub send_buffers : Ring → List (ℕ × ℕ)
send_buffers r =
    let fill_size = get_fill_size r in
    let size1 = direct_deque_size r in
    (r.front, size1) ∷ (if ltb size1 fill_size then (0, sub32 fill_size size1) ∷ [] else [])

-- What the code relies on of the socket calls: WSARecv fills the buffers in their order, and
-- WSASend sends what they hold in their order.
pub record SocketIo : Type 0 where
  pub fill : List ℕ → List (ℕ × ℕ) → List ℕ → List ℕ
  pub gather : List ℕ → List (ℕ × ℕ) → List ℕ
  pub fill-one :
      (buf : List ℕ) (at n : ℕ) (bytes : List ℕ)
      → length bytes ≤ n
      → fill buf ((at, n) ∷ []) bytes ≡ blit buf at bytes
  pub fill-two :
      (buf : List ℕ) (at n at' n' : ℕ) (bytes : List ℕ)
      → length bytes ≤ n + n'
      → fill buf ((at, n) ∷ (at', n') ∷ []) bytes
        ≡ blit (blit buf at (take n bytes)) at' (drop n bytes)
  pub gather-one : (buf : List ℕ) (at n : ℕ) → gather buf ((at, n) ∷ []) ≡ slice buf at n
  pub gather-two :
      (buf : List ℕ) (at n at' n' : ℕ)
      → gather buf ((at, n) ∷ (at', n') ∷ []) ≡ slice buf at n ++ slice buf at' n'

-- The ring after a completed receive of `bytes` into its free part.
unfoldable pub received : SocketIo → Ring → List ℕ → Ring
received io r bytes =
    move_rear (record r { buf = io.fill r.buf (recv_buffers r) bytes }) (length bytes)

module _ (io : SocketIo) (r : Ring) (bytes : List ℕ) (v : IsValid r)
    (room : length bytes ≤ get_empty_size r) where
  abbrev flat : List ℕ
  flat = blit r.buf r.rear bytes

  abbrev split : List ℕ
  split =
      blit (blit r.buf r.rear (take (r.buf_size - r.rear) bytes)) 0
        (drop (r.buf_size - r.rear) bytes)

  two_pieces :
      (n n' : ℕ)
      → length bytes ≤ n
      → length bytes ≤ n + n'
      → io.fill r.buf ((r.rear, n) ∷ (0, n') ∷ []) bytes ≡ flat
  two_pieces n n' few fits =
      io.fill-two r.buf r.rear n 0 n' bytes fits
      ∙ ap₂ (λ t u. blit (blit r.buf r.rear t) 0 u) (take-all n bytes few) (drop-all n bytes few)
      ∙ blit-nil flat

  fill-flat : length bytes ≤ r.buf_size - r.rear → io.fill r.buf (recv_buffers r) bytes ≡ flat
  unfolding recv_buffers get_empty_size direct_enque_size
  fill-flat few =
      let size1 = direct_enque_size r in
      let size2 = sub32 (get_empty_size r) size1 in
      ground (arith, io.fill-one r.buf r.rear size1 bytes, two_pieces size1 size2)

  fill-split : r.buf_size - r.rear < length bytes → io.fill r.buf (recv_buffers r) bytes ≡ split
  unfolding recv_buffers get_empty_size direct_enque_size
  fill-split many =
      let size1 = direct_enque_size r in
      let size2 = sub32 (get_empty_size r) size1 in
      ground (arith, io.fill-two r.buf r.rear size1 0 size2 bytes)

  -- A receive straight into the buffers of a valid ring, of at least one byte and of no more than
  -- the free ones, leaves it in the very state that Enqueue of the same bytes would.
  pub received_lem : 0 < length bytes → received io r bytes ≡ (enqueue r bytes (length bytes)).1
  unfolding received enqueue enqueue_flat enqueue_split move_rear get_empty_size
  received_lem some_bytes =
      let n = length bytes in
      let size1 = r.buf_size - r.rear in
      ground (
        arith,
        fill-flat,
        fill-split,
        take-length bytes,
        take-all (n - size1) (drop size1 bytes),
        length-drop size1 bytes,
        mod_one_round (add32 r.rear n) r.buf_size,
      )

  pub received-IsValid : 0 < length bytes → IsValid (received io r bytes)
  received-IsValid some_bytes =
      subst IsValid (sym (received_lem some_bytes))
        (enqueue-IsValid bytes (length bytes) (unfold get_empty_size in omega arith) v)

  -- A receive of at least one byte, and of no more than the free bytes of a valid ring, into the
  -- buffers that recvPost posts, followed by MoveRear, appends exactly these bytes to what the ring
  -- holds.
  pub contents-received : 0 < length bytes → contents (received io r bytes) ≡ contents r ++ bytes
  contents-received some_bytes = ap contents (received_lem some_bytes) ∙ ap (λ t. t.1) queued
    where
      queued :
          ◌≡◌ {A = ℕ × List ℕ}
            ((enqueue r bytes (length bytes)).0, contents (enqueue r bytes (length bytes)).1)
            (length bytes, contents r ++ bytes)
      queued =
          unfold get_empty_size get_buffer_size Fifo.enqueue in
          ground
            (arith, enqueue_refines bytes (length bytes) v, take-length bytes, length-contents r)

-- What sendPost hands to WSASend is the whole content of a valid ring, in order, whether or not it
-- wraps around the end of the array.
pub gather-send_buffers :
    (io : SocketIo) {r : Ring} → IsValid r → io.gather r.buf (send_buffers r) ≡ contents r
unfolding send_buffers direct_deque_size get_fill_size
gather-send_buffers io {r} v = pieces ∙ read_front_lem r r.fill_size v (omega arith) ∙ whole
  where
    pieces : io.gather r.buf (send_buffers r) ≡ read_front r r.fill_size
    pieces =
        unfold read_front in
        ground (
          arith,
          io.gather-one r.buf r.front (direct_deque_size r),
          io.gather-two r.buf r.front (direct_deque_size r) 0
              (sub32 r.fill_size (direct_deque_size r)),
        )

    whole : take r.fill_size (contents r) ≡ contents r
    whole = take-all r.fill_size (contents r) (omega (arith, length-contents r))

-- MoveFront of a valid ring by no more than its fill size removes that many of the oldest bytes.
pub contents-move_front :
    {r : Ring} (n : ℕ)
    → IsValid r
    → n ≤ r.fill_size
    → contents (move_front r n) ≡ drop n (contents r)
unfolding move_front
contents-move_front {r} n v few =
    contents-drop r n v few (move_front r n) refl refl
      (ground (arith, mod_one_round (add32 r.front n) r.buf_size)) (ground arith)

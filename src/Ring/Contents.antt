-- ===== src/Ring/Contents.antt =====
-- The bytes that a ring holds, oldest first, and what the writes and reads do to them.
use chat_server_mt.Base.{
  ℕ, ◌+◌, ◌-◌, ◌≤◌, ◌<◌, ◌≡◌, ◌∙◌, ◌++◌, sym, List, ltb, if◌then◌else◌, arith, sub32, length,
  get_or, get_or-blit, get_or-take, get_or-append, length-append, length-take, length-blit, slice,
  take, drop, blit, tabulate, length-tabulate, get_or-tabulate, eq-tabulate, get_or_ext,
  get_or-slice, length-slice, get_or-drop, length-drop,
}
use chat_server_mt.Ring.{Ring, enqueue_split, enqueue_flat, read_front}
use chat_server_mt.Ring.Inv.{IsValid, Fits, ring_index}

abbrev pub byte_at : Ring → ℕ → ℕ
byte_at r i = get_or r.buf (ring_index r.buf_size r.front i) 0

abbrev pub contents : Ring → List ℕ
contents r = tabulate r.fill_size (byte_at r)

pub length-contents : (r : Ring) → length (contents r) ≡ r.fill_size
length-contents r = length-tabulate r.fill_size (byte_at r)

module _ (r : Ring) (src : List ℕ) (size : ℕ) (v : IsValid r) (fits : Fits r size)
    (enough : size ≤ length src) where
  byte-enqueue_flat :
      (i : ℕ)
      → size ≤ r.buf_size - r.rear
      → i < r.fill_size + size
      → byte_at (enqueue_flat r src size) i
        ≡ (if ltb i r.fill_size then byte_at r i else get_or src (i - r.fill_size) 0)
  unfolding enqueue_flat
  byte-enqueue_flat i room h =
      let j = ring_index r.buf_size r.front i in
      ground (
        arith,
        get_or-blit r.buf r.rear (take size src) j 0,
        length-take size src,
        get_or-take size src (j - r.rear) 0,
      )

  byte-enqueue_split :
      (i : ℕ)
      → r.buf_size - r.rear < size
      → i < r.fill_size + size
      → byte_at (enqueue_split r src size) i
        ≡ (if ltb i r.fill_size then byte_at r i else get_or src (i - r.fill_size) 0)
  unfolding enqueue_split
  byte-enqueue_split i over h =
      let j = ring_index r.buf_size r.front i in
      let size1 = sub32 r.buf_size r.rear in
      let size2 = sub32 size size1 in
      ground (
        arith,
        get_or-blit r.buf r.rear (take size1 src) j 0,
        get_or-blit (blit r.buf r.rear (take size1 src)) 0 (slice src size1 size2) j 0,
        length-blit r.buf r.rear (take size1 src),
        length-slice src size1 size2,
        length-take size1 src,
        get_or-take size1 src (j - r.rear) 0,
        get_or-slice src size1 size2 j 0,
      )

  pub contents-append :
      (r' : Ring)
      → r'.fill_size ≡ r.fill_size + size
      → ((i : ℕ)
          → i < r.fill_size + size
          → byte_at r' i
            ≡ (if ltb i r.fill_size then byte_at r i else get_or src (i - r.fill_size) 0))
      → contents r' ≡ contents r ++ take size src
  contents-append r' e bytes =
      eq-tabulate 0 (contents r ++ take size src) r'.fill_size (byte_at r')
        (omega (
          arith,
          length-append (contents r) (take size src),
          length-contents r,
          length-take size src,
        ))
        (λ i h. ground (
          arith,
          bytes i,
          get_or-append (contents r) (take size src) i 0,
          length-contents r,
          get_or-tabulate r.fill_size (byte_at r) i 0,
          get_or-take size src (i - r.fill_size) 0,
        ))

  -- Both ways of writing append the same bytes.
  pub contents-enqueue_flat :
      size ≤ r.buf_size - r.rear → contents (enqueue_flat r src size) ≡ contents r ++ take size src
  contents-enqueue_flat room =
      contents-append (enqueue_flat r src size) (unfold enqueue_flat in ground arith)
        (λ i h. byte-enqueue_flat i room h)

  pub contents-enqueue_split :
      r.buf_size - r.rear < size → contents (enqueue_split r src size) ≡ contents r ++ take size src
  contents-enqueue_split over =
      contents-append (enqueue_split r src size) (unfold enqueue_split in ground arith)
        (λ i h. byte-enqueue_split i over h)

module _ (r : Ring) (size : ℕ) (v : IsValid r) (few : size ≤ r.fill_size) where
  length-read_front : length (read_front r size) ≡ size
  unfolding read_front
  length-read_front =
      let size1 = sub32 r.buf_size r.front in
      ground (
        arith,
        length-append (slice r.buf r.front size1) (slice r.buf 0 (sub32 size size1)),
        length-slice r.buf r.front size1,
        length-slice r.buf 0 (sub32 size size1),
        length-slice r.buf r.front size,
      )

  get_or-read_front : (i : ℕ) → i < size → get_or (read_front r size) i 0 ≡ byte_at r i
  unfolding read_front
  get_or-read_front i h =
      let size1 = sub32 r.buf_size r.front in
      ground (
        arith,
        get_or-append (slice r.buf r.front size1) (slice r.buf 0 (sub32 size size1)) i 0,
        length-slice r.buf r.front size1,
        get_or-slice r.buf r.front size1 i 0,
        get_or-slice r.buf 0 (sub32 size size1) (i - size1) 0,
        get_or-slice r.buf r.front size i 0,
      )

  length-taken : length (take size (contents r)) ≡ size
  length-taken = omega (arith, length-take size (contents r), length-contents r)

  -- The bytes read are the oldest ones, also round the end of the array.
  pub read_front_lem : read_front r size ≡ take size (contents r)
  read_front_lem =
      get_or_ext 0 (read_front r size) (take size (contents r))
        (length-read_front ∙ sym length-taken)
        λ i h.
          let p : i < size = omega (arith, length-read_front) in
          ground (
            arith,
            get_or-read_front i p,
            get_or-take size (contents r) i 0,
            get_or-tabulate r.fill_size (byte_at r) i 0,
          )

  -- What is left after a read, given the new `front` and count.
  pub contents-drop :
      (r' : Ring)
      → r'.buf ≡ r.buf
      → r'.buf_size ≡ r.buf_size
      → r'.front ≡ ring_index r.buf_size r.front size
      → r'.fill_size ≡ r.fill_size - size
      → contents r' ≡ drop size (contents r)
  contents-drop r' eb es ef el =
      eq-tabulate 0 (drop size (contents r)) r'.fill_size (byte_at r')
        (omega (arith, length-drop size (contents r), length-contents r))
        (λ i h. ground (
          arith,
          get_or-drop size (contents r) i 0,
          get_or-tabulate r.fill_size (byte_at r) (size + i) 0,
        ))

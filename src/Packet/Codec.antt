-- ===== src/Packet/Codec.antt =====
-- The loops of `Encode` and `Decode` in CPacket.cpp, and the wire form of a packet.
use native.Mathlib.Numerals.{add-one}
use chat_server_mt.Base.Bits.{byte_xor_undo}
use chat_server_mt.Base.{
  ℕ, suc, ◌+◌, ◌/◌, ◌<◌, ◌≡◌, ◌∙◌, ap, ap₂, sym, refl, List, [], ◌∷◌, ◌++◌, arith, length,
  length-append, take, drop, take-append, drop-append, blit, blit-zero, blit-nil, u8, bit_xor,
}
use chat_server_mt.Packet.{
  check_sum, encode_mem, decode_mem, encode_loop, decode_loop, net_header_size,
}

abbrev pub IsBytes : List ℕ → Type 0
IsBytes [] = Unit {0}
IsBytes (b ∷ bs) = (b < 256) × IsBytes bs

-- The loop of Decode undoes the loop of Encode on every list of bytes, whatever the two keys, the
-- position and the two chained bytes are.
pub decode_loop-encode_loop :
    (key r_key i p e : ℕ) (bs : List ℕ)
    → IsBytes bs
    → decode_loop key r_key i p e (encode_loop key r_key i p e bs) ≡ bs
unfolding encode_loop decode_loop
decode_loop-encode_loop key r_key i p e [] h = refl
decode_loop-encode_loop key r_key i p e (b ∷ bs) h =
    let x : ℕ = p + r_key + i + 1 in
    let y : ℕ = e + key + i + 1 in
    let p' : ℕ = u8 (bit_xor b x) in
    let e' : ℕ = u8 (bit_xor p' y) in
    let back : u8 (bit_xor e' y) ≡ p' = byte_xor_undo p' y (omega arith) in
    ap₂ ◌∷◌ (ap (λ t. u8 (bit_xor t x)) back ∙ byte_xor_undo b x h.0) (
      ap (λ t. decode_loop key r_key (i + 1) t e' (encode_loop key r_key (i + 1) p' e' bs)) back
      ∙ decode_loop-encode_loop key r_key (i + 1) p' e' bs h.1)

pub length-encode_loop :
    (key r_key i p e : ℕ) (bs : List ℕ) → length (encode_loop key r_key i p e bs) ≡ length bs
unfolding encode_loop
length-encode_loop key r_key i p e [] = refl
length-encode_loop key r_key i p e (b ∷ bs) =
    let p' : ℕ = u8 (bit_xor b (p + r_key + i + 1)) in
    ap suc (length-encode_loop key r_key (i + 1) p' (u8 (bit_xor p' (e + key + i + 1))) bs)

pub check_sum-byte : (sum : ℕ) (bs : List ℕ) → sum < 256 → check_sum sum bs < 256
unfolding check_sum
check_sum-byte sum [] h = h
check_sum-byte sum (b ∷ bs) h = check_sum-byte (u8 (sum + b)) bs (omega arith)

-- The frame that carries a payload: NetPacketHeader, then the payload, with the checksum and the
-- payload coded.
unfoldable pub frame : ℕ → ℕ → ℕ → List ℕ → List ℕ
frame key code r_key bytes =
    code
    ∷ u8 (length bytes)
    ∷ u8 (length bytes / 256)
    ∷ r_key
    ∷ encode_loop key r_key 0 0 0 (check_sum 0 bytes ∷ bytes)

pub length-frame :
    (key code r_key : ℕ) (bytes : List ℕ)
    → length (frame key code r_key bytes) ≡ net_header_size + length bytes
unfolding frame
length-frame key code r_key bytes =
    omega (arith, length-encode_loop key r_key 0 0 0 (check_sum 0 bytes ∷ bytes))

-- Writing as many values as there are before `rest` replaces exactly those.
blit-over : (xs ys rest : List ℕ) → length xs ≡ length ys → blit (ys ++ rest) 0 xs ≡ xs ++ rest
blit-over xs ys rest e =
    blit-zero (ys ++ rest) xs (omega (arith, length-append ys rest))
    ∙ ap (λ n. xs ++ drop n (ys ++ rest)) e
    ∙ ap (λ t. xs ++ t) (drop-append ys rest)

module _ (key r_key : ℕ) (bytes rest : List ℕ) where
  abbrev coded : List ℕ
  coded = encode_loop key r_key 0 0 0 (check_sum 0 bytes ∷ bytes)

  abbrev encode_over : ℕ → List ℕ → ℕ → List ℕ
  encode_over sum mem n = blit (sum ∷ mem) 0 (encode_loop key r_key 0 0 0 (take n (sum ∷ mem)))

  encode_over_lem :
      encode_over
        (check_sum 0 (take (length bytes) (bytes ++ rest)))
        (blit (bytes ++ rest) 0 [])
        (length bytes + 1)
      ≡ coded ++ rest
  encode_over_lem =
      let sum = check_sum 0 bytes in
      let n = length bytes in
      ap (λ t. encode_over (check_sum 0 t) (blit (bytes ++ rest) 0 []) (n + 1))
        (take-append bytes rest)
      ∙ ap (λ t. encode_over sum t (n + 1)) (blit-nil (bytes ++ rest))
      ∙ ap (λ k. encode_over sum (bytes ++ rest) k) (add-one n)
      ∙ ap (λ t. blit (sum ∷ bytes ++ rest) 0 (encode_loop key r_key 0 0 0 (sum ∷ t)))
          (take-append bytes rest)
      ∙ blit-over coded (sum ∷ bytes) rest (length-encode_loop key r_key 0 0 0 (sum ∷ bytes))

  -- `Encode` turns a payload into its frame, and leaves the memory behind it alone.
  pub encode_mem_lem :
      (code a b c d e : ℕ)
      → encode_mem key code r_key (length bytes) (a ∷ b ∷ c ∷ d ∷ e ∷ bytes ++ rest)
        ≡ frame key code r_key bytes ++ rest
  unfolding encode_mem frame
  encode_mem_lem code a b c d e =
      ap (λ t. code ∷ u8 (length bytes) ∷ u8 (length bytes / 256) ∷ r_key ∷ t)
        (blit-nil _ ∙ encode_over_lem)

  -- `Decode` of a frame restores the checksum and the payload.
  pub decode_mem_lem :
      (code : ℕ)
      → IsBytes bytes
      → decode_mem key (length bytes) (frame key code r_key bytes ++ rest)
        ≡ code ∷ u8 (length bytes) ∷ u8 (length bytes / 256) ∷ r_key ∷ check_sum 0 bytes ∷ bytes
          ++ rest
  unfolding decode_mem frame
  decode_mem_lem code h =
      let sum = check_sum 0 bytes in
      let n = length bytes in
      let plain : List ℕ → List ℕ = decode_loop key r_key 0 0 0 in
      ap (λ t. code ∷ u8 n ∷ u8 (n / 256) ∷ r_key ∷ t)
        (ap (λ k. blit (coded ++ rest) 0 (plain (take k (coded ++ rest)))) same_length
          ∙ ap (λ t. blit (coded ++ rest) 0 (plain t)) (take-append coded rest)
          ∙ ap (λ t. blit (coded ++ rest) 0 t)
              (decode_loop-encode_loop key r_key 0 0 0 (sum ∷ bytes)
                (check_sum-byte 0 bytes (omega arith), h))
          ∙ blit-over (sum ∷ bytes) coded rest
              (sym (length-encode_loop key r_key 0 0 0 (sum ∷ bytes))))
    where
      same_length : length bytes + 1 ≡ length coded
      same_length = omega (arith, length-encode_loop key r_key 0 0 0 (check_sum 0 bytes ∷ bytes))

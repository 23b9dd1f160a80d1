-- ===== src/Packet/Wire.antt =====
-- The whole packet: what is sent after `Encode`, and what `Decode` makes of a received frame.
use chat_server_mt.Base.{
  ℕ, ◌+◌, ◌/◌, ◌≤◌, ◌≡◌, ◌∙◌, ap, ap₂, sym, refl, true, List, [], ◌∷◌, ◌++◌, arith, length, take,
  drop, take-append, take-append-drop, slice, blit, blit-nil, u8, ==_self, get_or, ◌==◌,
}
use chat_server_mt.Packet.{
  Packet, check_sum, encode_mem, decode_mem, encode, decode, net_header_size, set_len_net,
  get_data_size_net,
}
use chat_server_mt.Packet.{len_at, check_sum_at}
use chat_server_mt.Packet.Inv.{IsValid, payload, length-payload}
use chat_server_mt.Packet.Codec.{IsBytes, frame, length-frame, encode_mem_lem, decode_mem_lem}

-- The array of a packet that was written from its start: header room, payload, unused bytes.
record Layout (p : Packet) : Type 0 where
  a : ℕ
  b : ℕ
  c : ℕ
  d : ℕ
  e : ℕ
  rest : List ℕ
  hidden : p.hidden_buf ≡ a ∷ b ∷ c ∷ d ∷ e ∷ payload p ++ rest

payload_at :
    (p : Packet) (a b c d e : ℕ) (rest : List ℕ)
    → p.hidden_buf ≡ a ∷ b ∷ c ∷ d ∷ e ∷ rest
    → p.read_pos ≡ 0
    → payload p ≡ take p.data_size rest
payload_at p a b c d e rest h r =
    ap (λ k. slice p.hidden_buf k p.data_size) {y = net_header_size} (omega arith)
    ∙ ap (λ mem. slice mem net_header_size p.data_size) h

layout_of :
    (p : Packet) (mem : List ℕ)
    → p.hidden_buf ≡ mem
    → net_header_size ≤ length mem
    → p.read_pos ≡ 0
    → Layout p
layout_of p (a ∷ b ∷ c ∷ d ∷ e ∷ rest) h room r = record {
  a = a;
  b = b;
  c = c;
  d = d;
  e = e;
  rest = drop p.data_size rest;
  hidden =
      h
      ∙ ap (λ t. a ∷ b ∷ c ∷ d ∷ e ∷ t)
          (sym (take-append-drop p.data_size rest)
            ∙ ap (λ t. t ++ drop p.data_size rest) (sym (payload_at p a b c d e rest h r)));
}
layout_of p _ h room r = absurd (omega arith)

-- The bytes that a send of the packet puts on the wire.
unfoldable pub wire : Packet → List ℕ
wire p = slice (set_len_net p).hidden_buf 0 (get_data_size_net p)

-- Sending a packet that holds a frame sends the frame.
wire-frame :
    (key code r_key : ℕ) (bytes rest : List ℕ) (q : Packet)
    → q.hidden_buf ≡ frame key code r_key bytes ++ rest
    → q.data_size ≡ length bytes
    → wire q ≡ frame key code r_key bytes
unfolding wire set_len_net get_data_size_net
wire-frame key code r_key bytes rest q e n =
    ap₂ (λ k mem. slice (blit mem len_at (u8 k ∷ u8 (k / 256) ∷ [])) 0 (k + net_header_size)) n e
    ∙ unfold frame in
      (ap
          (λ t.
            slice (code ∷ u8 (length bytes) ∷ u8 (length bytes / 256) ∷ t) 0
              (length bytes + net_header_size))
          (blit-nil _)
        ∙ ap (λ k. take k (frame key code r_key bytes ++ rest)) same
        ∙ take-append (frame key code r_key bytes) rest)
  where
    same : length bytes + net_header_size ≡ length (frame key code r_key bytes)
    same = omega (arith, length-frame key code r_key bytes)

module _ {p : Packet} (v : IsValid p) (start : p.read_pos ≡ 0) where
  layout : Layout p
  layout = layout_of p p.hidden_buf refl (omega (arith, v.storage)) start

  encode_hidden :
      (key code r_key : ℕ)
      → (encode key code r_key p).hidden_buf ≡ frame key code r_key (payload p) ++ layout.rest
  unfolding encode
  encode_hidden key code r_key =
      ap₂ (λ k mem. encode_mem key code r_key k mem) (sym (length-payload v)) layout.hidden
      ∙ encode_mem_lem key r_key (payload p) layout.rest code layout.a layout.b layout.c layout.d
          layout.e

  -- A valid packet that nothing was read from goes out, after Encode and GetBufferPtrNet, as the
  -- frame of its payload: header, coded checksum and coded payload.
  pub wire-encode :
      (key code r_key : ℕ) → wire (encode key code r_key p) ≡ frame key code r_key (payload p)
  wire-encode key code r_key =
      wire-frame key code r_key (payload p) layout.rest (encode key code r_key p)
        (encode_hidden key code r_key) (unfold encode in sym (length-payload v))

-- Decode accepts a packet that holds a frame of bytes and counts their number, and what is left to
-- read is the payload that was framed, for every key, code and random byte.
pub decode-frame :
    (key code r_key : ℕ) (bytes rest : List ℕ) (q : Packet)
    → IsBytes bytes
    → q.hidden_buf ≡ frame key code r_key bytes ++ rest
    → q.data_size ≡ length bytes
    → q.read_pos ≡ 0
    → ((decode key q).0 ≡ true) × (payload (decode key q).1 ≡ bytes)
unfolding decode
decode-frame key code r_key bytes rest q h e n r = (
  ap₂ (λ mem k. check_sum 0 (slice mem net_header_size k) == get_or mem check_sum_at 0) plain n
      ∙ ap (λ t. check_sum 0 t == check_sum 0 bytes) (take-append bytes rest)
      ∙ ==_self (check_sum 0 bytes),
  payload_at (record q { hidden_buf = decode_mem key q.data_size q.hidden_buf }) _ _ _ _ _ _ plain r
      ∙ ap (λ k. take k (bytes ++ rest)) n
      ∙ take-append bytes rest,
)
  where
    plain :
        decode_mem key q.data_size q.hidden_buf
        ≡ code ∷ u8 (length bytes) ∷ u8 (length bytes / 256) ∷ r_key ∷ check_sum 0 bytes ∷ bytes
          ++ rest
    plain = ap₂ (λ k mem. decode_mem key k mem) n e ∙ decode_mem_lem key r_key bytes rest code h

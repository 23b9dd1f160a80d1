-- ===== src/Packet/Fields.antt =====
-- Sequences of the operators `<<` and `>>` of CPacket.cpp.
use native.Mathlib.Nat.{pow-succ'}
use chat_server_mt.Base.{
  ℕ, zero, suc, ◌+◌, ◌/◌, ◌^◌, ◌<◌, ◌≡◌, ◌∙◌, ap, ap₂, sym, refl, List, [], ◌∷◌, ◌++◌, map, arith,
  length, length-append, take, drop, take-append, drop-append, take-length, append_assoc,
  append-nil,
}
use chat_server_mt.Packet.{
  Packet, put_data, FieldType, uchar, size_of, le_bytes, of_le_bytes, put_value, get_value,
}
use chat_server_mt.Packet.Inv.{
  IsValid, payload, put_data_lem, get_data_lem, put_data-IsValid, get_data-IsValid,
}

abbrev pub Field : Type 0
Field = FieldType × ℕ

-- A sequence of `<<`, and of `>>` into variables that held `old`.
pub put_all : List Field → Packet → Packet
put_all [] p = p
put_all ((t, v) ∷ fs) p = put_all fs (put_value t v p)

pub get_all : List Field → ℕ → Packet → List ℕ × Packet
get_all [] old p = ([], p)
get_all ((t, _) ∷ fs) old p =
    let (v, p') = get_value t old p in let (vs, q) = get_all fs old p' in (v ∷ vs, q)

pub field_bytes : List Field → List ℕ
field_bytes [] = []
field_bytes ((t, v) ∷ fs) = le_bytes (size_of t) v ++ field_bytes fs

abbrev pub values : List Field → List ℕ
values = map (λ f. f.1)

-- Each value fits its type.
abbrev pub InRange : List Field → Type 0
InRange [] = Unit {0}
InRange ((t, v) ∷ fs) = (v < 256 ^ size_of t) × InRange fs

pub length-le_bytes : (n v : ℕ) → length (le_bytes n v) ≡ n
length-le_bytes zero v = refl
length-le_bytes (suc n) v = ap suc (length-le_bytes n (v / 256))

pub of_le_bytes-le_bytes : (n v : ℕ) → v < 256 ^ n → of_le_bytes (le_bytes n v) ≡ v
of_le_bytes-le_bytes zero v h = omega arith
of_le_bytes-le_bytes (suc n) v h =
    omega (arith, of_le_bytes-le_bytes n (v / 256) (omega (arith, pow-succ' 256 n)))

size_of-pos : (t : FieldType) → 0 < size_of t
unfolding size_of
size_of-pos uchar = omega arith
size_of-pos _ = omega arith

pub put_value-IsValid : {p : Packet} (t : FieldType) (v : ℕ) → IsValid p → IsValid (put_value t v p)
unfolding put_value
put_value-IsValid t v h = put_data-IsValid (le_bytes (size_of t) v) (size_of t) h

pub payload-put_value :
    {p : Packet} (t : FieldType) (v : ℕ)
    → IsValid p
    → p.write_pos + size_of t < p.buffer_size
    → payload (put_value t v p) ≡ payload p ++ le_bytes (size_of t) v
unfolding put_value
payload-put_value {p} t v h room =
    let bytes = le_bytes (size_of t) v in
    let n = size_of t in
    ground (
      arith,
      put_data_lem bytes n h,
      length-le_bytes n v,
      ap (λ k. take k bytes) (length-le_bytes n v),
      take-length bytes,
    )

-- A value at the front of the payload is read back.
pub get_value_lem :
    {p : Packet} (t : FieldType) (v old : ℕ) (rest : List ℕ)
    → IsValid p
    → v < 256 ^ size_of t
    → payload p ≡ le_bytes (size_of t) v ++ rest
    → ((get_value t old p).0 ≡ v) × (payload (get_value t old p).1 ≡ rest)
unfolding get_value
get_value_lem {p} t v old rest h small e =
    let n = size_of t in
    let bytes = le_bytes n v in
    ground (
      arith,
      get_data_lem n h,
      ap length e,
      length-append bytes rest,
      length-le_bytes n v,
      size_of-pos t,
      ap (λ k. take k (bytes ++ rest)) (length-le_bytes n v),
      take-append bytes rest,
      ap (λ k. drop k (bytes ++ rest)) (length-le_bytes n v),
      drop-append bytes rest,
      of_le_bytes-le_bytes n v,
    )

unfoldable pub total_size : List Field → ℕ
total_size [] = 0
total_size ((t, v) ∷ fs) = size_of t + total_size fs

write_pos-put_value :
    (p : Packet) (t : FieldType) (v : ℕ)
    → p.write_pos + size_of t < p.buffer_size
    → ((put_value t v p).write_pos ≡ p.write_pos + size_of t)
      × ((put_value t v p).buffer_size ≡ p.buffer_size)
unfolding put_value put_data
write_pos-put_value p t v room = ground arith

pub put_all-IsValid : (fs : List Field) {p : Packet} → IsValid p → IsValid (put_all fs p)
unfolding put_all
put_all-IsValid [] h = h
put_all-IsValid ((t, v) ∷ fs) h = put_all-IsValid fs (put_value-IsValid t v h)

-- A sequence of `<<` with room for all its values appends them all.
pub payload-put_all :
    (fs : List Field) {p : Packet}
    → IsValid p
    → p.write_pos + total_size fs < p.buffer_size
    → payload (put_all fs p) ≡ payload p ++ field_bytes fs
unfolding put_all total_size field_bytes
payload-put_all [] {p} h room = sym (append-nil (payload p))
payload-put_all ((t, v) ∷ fs) {p} h room =
    let at = write_pos-put_value p t v (omega arith) in
    payload-put_all fs (put_value-IsValid t v h) (omega (arith, at))
    ∙ ap (λ q. q ++ field_bytes fs) (payload-put_value t v h (omega arith))
    ∙ append_assoc (payload p) (le_bytes (size_of t) v) (field_bytes fs)

pub get_value-IsValid :
    {p : Packet} (t : FieldType) (old : ℕ) → IsValid p → IsValid (get_value t old p).1
unfolding get_value
get_value-IsValid t old h = get_data-IsValid (size_of t) h

-- A sequence of `>>` of the same types reads a payload's leading values, in order.
pub get_all_lem :
    (fs : List Field) (old : ℕ) {p : Packet} (rest : List ℕ)
    → IsValid p
    → InRange fs
    → payload p ≡ field_bytes fs ++ rest
    → ((get_all fs old p).0 ≡ values fs) × (payload (get_all fs old p).1 ≡ rest)
unfolding get_all field_bytes
get_all_lem [] old rest h small e = (refl, e)
get_all_lem ((t, v) ∷ fs) old {p} rest h small e =
    let bytes = le_bytes (size_of t) v in
    let one =
      get_value_lem t v old (field_bytes fs ++ rest) h small.0
        (e ∙ append_assoc bytes (field_bytes fs) rest) in
    let more = get_all_lem fs old rest (get_value-IsValid t old h) small.1 one.1 in
    (ap₂ ◌∷◌ one.0 more.0, more.1)

-- Values in the range of their types, written with << into a valid packet without payload and with
-- room for them, are read back in order by the same sequence of >>, and nothing is left.
pub get_all-put_all :
    (fs : List Field) (old : ℕ) {p : Packet}
    → IsValid p
    → payload p ≡ []
    → InRange fs
    → p.write_pos + total_size fs < p.buffer_size
    → ((get_all fs old (put_all fs p)).0 ≡ values fs)
      × (payload (get_all fs old (put_all fs p)).1 ≡ [])
get_all-put_all fs old {p} h empty small room = get_all_lem fs old [] (put_all-IsValid fs h) small (
    payload-put_all fs h room
    ∙ ap (λ q. q ++ field_bytes fs) empty
    ∙ sym (append-nil (field_bytes fs)))

-- ===== src/Wire/Headers.antt =====
-- src/wire.zig, `Header`: what is encoded is decoded, and what is decoded was encoded.
use wayring.Base.{
  All, length, take, drop, length-append, length-take, length-drop, All-take, All-drop, ok, ℕ, ◌+◌,
  ◌*◌, ◌/◌, ◌%◌, ◌^◌, ◌≤◌, ◌<◌, ◌≡◌, refl, sym, ap, ap₂, ◌∙◌, ◌≢◌, some, List, [], ◌∷◌, ◌++◌,
  append_assoc, arith,
}
use wayring.Wire.{Endian, Header, header_len, decode_header, encode_header, read_u32, write_u32}
use wayring.Wire.Bytes.{
  IsByte, length-write_u32, read_u32-write_u32, take-write_u32, drop-write_u32, read_u32-lt,
  write_u32-read_u32,
}

-- The fields lie in their types: `u32`, `u16`, `u16`.
pub record Fits (h : Header) : Type 0 where
  pub object_id_fits : h.object_id < 2 ^ 32
  pub opcode_fits : h.opcode < 2 ^ 16
  pub size_fits : h.size < 2 ^ 16

-- What both directions demand of a header.
pub record IsSendable (h : Header) : Type 0 where
  pub sender : h.object_id ≢ 0
  pub long_enough : header_len ≤ h.size
  pub aligned : h.size % 4 ≡ 0

-- The bytes of a header.
abbrev pub header_bytes : Endian → Header → List ℕ
header_bytes e h = write_u32 e h.object_id ++ write_u32 e (h.size * 2 ^ 16 + h.opcode)

pub length-header_bytes : (e : Endian) (h : Header) → length (header_bytes e h) ≡ 8
length-header_bytes e h = omega (
  arith,
  length-append (write_u32 e h.object_id) (write_u32 e (h.size * 2 ^ 16 + h.opcode)),
  length-write_u32 e h.object_id,
  length-write_u32 e (h.size * 2 ^ 16 + h.opcode),
)

pub encode_sendable :
    (e : Endian) (h : Header) → IsSendable h → encode_header e h ≡ ok (header_bytes e h)
unfolding encode_header
encode_sendable e h s = ground arith

-- A successful `encode` means the header was sendable.
pub encode_ok :
    (e : Endian) (h : Header) {bytes : List ℕ}
    → encode_header e h ≡ ok bytes
    → IsSendable h × (bytes ≡ header_bytes e h)
unfolding encode_header
encode_ok e h p = ground arith

pub decode_of_words :
    (e : Endian) (bytes : List ℕ) (h : Header)
    → IsSendable h
    → Fits h
    → 8 ≤ length bytes
    → read_u32 e (take 4 bytes) ≡ h.object_id
    → read_u32 e (take 4 (drop 4 bytes)) ≡ h.size * 2 ^ 16 + h.opcode
    → decode_header e bytes ≡ ok (some h)
unfolding decode_header
decode_of_words e bytes h s f l p q = ground arith

-- A sendable header that fits its fields is decoded from its own bytes, whatever follows them.
pub decode-encode :
    (e : Endian) (h : Header) (rest : List ℕ)
    → IsSendable h
    → Fits h
    → decode_header e (header_bytes e h ++ rest) ≡ ok (some h)
decode-encode e h rest s f =
    decode_of_words e (header_bytes e h ++ rest) h s f
      (omega (arith, length-append (header_bytes e h) rest, length-header_bytes e h))
      (rw (first, take-write_u32) (read_u32-write_u32 e h.object_id f.object_id_fits))
      (rw (second, take-write_u32) (read_u32-write_u32 e _ (omega arith)))
  where
    first :
        header_bytes e h ++ rest
        ≡ write_u32 e h.object_id ++ (write_u32 e (h.size * 2 ^ 16 + h.opcode) ++ rest)
    first = append_assoc (write_u32 e h.object_id) (write_u32 e (h.size * 2 ^ 16 + h.opcode)) rest

    second : drop 4 (header_bytes e h ++ rest) ≡ write_u32 e (h.size * 2 ^ 16 + h.opcode) ++ rest
    second = rw first (drop-write_u32 e h.object_id _)

-- A decoded header is sendable, and its words stand in the first eight bytes.
pub record Decoded (e : Endian) (bytes : List ℕ) (h : Header) : Type 0 where
  pub sendable : IsSendable h
  pub available : 8 ≤ length bytes
  pub size_fits : h.size < 2 ^ 16
  pub opcode_fits : h.opcode < 2 ^ 16
  pub sender_word : read_u32 e (take 4 bytes) ≡ h.object_id
  pub size_word : read_u32 e (take 4 (drop 4 bytes)) / 2 ^ 16 % 2 ^ 16 ≡ h.size
  pub opcode_word : read_u32 e (take 4 (drop 4 bytes)) % 2 ^ 16 ≡ h.opcode

pub decode_ok :
    (e : Endian) (bytes : List ℕ) (h : Header)
    → decode_header e bytes ≡ ok (some h)
    → Decoded e bytes h
unfolding decode_header
decode_ok e bytes h p = ground arith

take_eight : (bytes : List ℕ) → take 8 bytes ≡ take 4 bytes ++ take 4 (drop 4 bytes)
take_eight (a ∷ b ∷ c ∷ d ∷ r) = refl
take_eight [] = refl
take_eight (a ∷ []) = refl
take_eight (a ∷ b ∷ []) = refl
take_eight (a ∷ b ∷ c ∷ []) = refl

-- What is decoded is encoded back to the bytes that it was read from.
pub encode-decode :
    (e : Endian) (bytes : List ℕ) (h : Header)
    → All IsByte bytes
    → decode_header e bytes ≡ ok (some h)
    → encode_header e h ≡ ok (take 8 bytes)
encode-decode e bytes h a p =
    rw (encode_sendable e h d.sendable, take_eight bytes, ← words)
      (ap ok (
        ap₂ ◌++◌ sender (
          again (drop 4 bytes) (All-drop IsByte 4 bytes a)
            (omega (arith, length-drop 4 bytes, d.available)))))
  where
    d : Decoded e bytes h
    d = decode_ok e bytes h p

    again :
        (bs : List ℕ)
        → All IsByte bs
        → 4 ≤ length bs
        → write_u32 e (read_u32 e (take 4 bs)) ≡ take 4 bs
    again bs b l =
        write_u32-read_u32 e (take 4 bs) (All-take IsByte 4 bs b) (omega (arith, length-take 4 bs))

    sender : write_u32 e h.object_id ≡ take 4 bytes
    sender = ap (write_u32 e) (sym d.sender_word) ∙ again bytes a (omega (arith, d.available))

    words : read_u32 e (take 4 (drop 4 bytes)) ≡ h.size * 2 ^ 16 + h.opcode
    words = omega (
      arith,
      d,
      read_u32-lt e (take 4 (drop 4 bytes))
          (All-take IsByte 4 (drop 4 bytes) (All-drop IsByte 4 bytes a)),
    )

-- ===== src/Wire/Messages.antt =====
-- src/wire.zig, `Message.decode`: the first complete message of a buffer, or nothing yet.
use wayring.Base.{
  ltb, if◌then◌else◌, lt→ltb, le→ltb, tests, Bool-cases, length, take, drop, length-append,
  length-take, length-drop, take-append_left, drop-append_left, take-append_right,
  drop-append_exact, take-append_exact, ok, ℕ, ◌+◌, ◌≤◌, ◌<◌, ◌≡◌, refl, sym, ap, inl, inr, none,
  some, List, ◌++◌, append_assoc, arith,
}
use wayring.Wire.{Endian, Header, Message, message_of, decode_header, decode_message}
use wayring.Wire.Headers.{Fits, IsSendable, header_bytes, length-header_bytes, decode-encode}

-- A message as the bytes that carry it.
abbrev pub frame : Endian → Message → List ℕ
frame e m = header_bytes e m.header ++ m.payload

-- A message that can be sent: its size counts the header and the payload.
pub record IsFramed (m : Message) : Type 0 where
  pub sendable : IsSendable m.header
  pub fits : Fits m.header
  pub sized : m.header.size ≡ 8 + length m.payload

-- The header is decided by the first eight bytes.
pub decode_header-append :
    (e : Endian) (bytes more : List ℕ)
    → 8 ≤ length bytes
    → decode_header e (bytes ++ more) ≡ decode_header e bytes
unfolding decode_header
decode_header-append e bytes more h =
    rw
      (
        le→ltb (length bytes) 8 h,
        le→ltb (length (bytes ++ more)) 8 (omega (arith, length-append bytes more)),
        take-append_left 4 bytes more (omega arith),
        drop-append_left 4 bytes more (omega arith),
        take-append_left 4 (drop 4 bytes) more (omega (arith, length-drop 4 bytes)),
      )
      refl

pub decode_header_short :
    (e : Endian) (bytes : List ℕ) → length bytes < 8 → decode_header e bytes ≡ ok none
unfolding decode_header
decode_header_short e bytes h = ground arith

-- What `Message.decode` does once the header is known.
pub decode_message_of_header :
    (e : Endian) (bytes : List ℕ) (h : Header)
    → decode_header e bytes ≡ ok (some h)
    → decode_message e bytes
      ≡ (if ltb (length bytes) h.size then ok none else ok (some (message_of h bytes)))
unfolding decode_message
decode_message_of_header e bytes h p = rw p

pub length-frame : (e : Endian) (m : Message) → IsFramed m → length (frame e m) ≡ m.header.size
length-frame e m f = omega (
  arith,
  f.sized,
  length-append (header_bytes e m.header) m.payload,
  length-header_bytes e m.header,
)

-- A framed message is decoded from its bytes, and what follows them is not looked at.
pub decode-frame :
    (e : Endian) (m : Message) (rest : List ℕ)
    → IsFramed m
    → decode_message e (frame e m ++ rest) ≡ ok (some m)
decode-frame e m rest f = rw (decode_message_of_header e (frame e m ++ rest) m.header header) (
    rw
      (le→ltb (length (frame e m ++ rest)) m.header.size
        (omega (arith, length-frame e m f, length-append (frame e m) rest)))
      (ap (λ p. ok (some (record { header = m.header; payload = p }))) body))
  where
    body : drop 8 (take m.header.size (frame e m ++ rest)) ≡ m.payload
    body = rw (take-append_exact m.header.size (frame e m) rest (sym (length-frame e m f))) (
        drop-append_exact 8 (header_bytes e m.header) m.payload
          (sym (length-header_bytes e m.header)))

    header : decode_header e (frame e m ++ rest) ≡ ok (some m.header)
    header =
        rw (append_assoc (header_bytes e m.header) m.payload rest)
          (decode-encode e m.header _ f.sendable f.fits)

-- Nothing is decoded, and nothing is refused, before the last byte has come.
pub decode-take-frame :
    (e : Endian) (m : Message) (n : ℕ)
    → IsFramed m
    → n < m.header.size
    → decode_message e (take n (frame e m)) ≡ ok none
unfolding decode_message
decode-take-frame e m n f h = elim (Bool-cases (ltb n 8)) [
  | inl short ↦
      rw
        (
          decode_message,
          decode_header_short e (take n (frame e m)) (omega (tests, length-take n (frame e m))),
        )
        refl
  | inr long ↦
      rw
        (decode_message_of_header e (take n (frame e m)) m.header (
          rw
            (take-append_right n (header_bytes e m.header) m.payload
              (omega (tests, length-header_bytes e m.header)))
            (decode-encode e m.header _ f.sendable f.fits)))
        (rw
          (lt→ltb (length (take n (frame e m))) m.header.size
            (omega (arith, length-take n (frame e m))))
          refl)
]

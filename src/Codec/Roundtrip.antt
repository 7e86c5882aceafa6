-- ===== src/Codec/Roundtrip.antt =====
-- src/codegen.zig against src/wire.zig: what the generated encoders write, `Arguments` reads back.
use wayring.Base.{
  le→ltb, lt→leb, ne→==, length, get_elem?, length-append, length-replicate, drop-append_exact,
  take-append_exact, ok, ℕ, zero, suc, ◌+◌, ◌-◌, ◌%◌, ◌^◌, ◌<◌, ◌≡◌, refl, ap, false, some, List,
  [], ◌∷◌, ◌++◌, append_assoc, arith,
}
use wayring.Wire.{
  Endian, write_u32, align_down, take_bytes, uint, string, string_value, has_nul, array,
}
use wayring.Wire.Bytes.{length-write_u32, read_u32-write_u32, take-write_u32, drop-write_u32}
use wayring.Codec.{variable_size, padding, zeros, write_string, write_array}

-- `Arguments.uint` reads a word that `writeU32` wrote, and moves past it.
pub uint-write_u32 :
    (e : Endian) (v : ℕ) (rest : List ℕ)
    → v < 2 ^ 32
    → uint e (write_u32 e v ++ rest) ≡ (ok v, rest)
unfolding uint
uint-write_u32 e v rest h =
    rw
      (
        le→ltb (length (write_u32 e v ++ rest)) 4
            (omega (arith, length-append (write_u32 e v) rest, length-write_u32 e v)),
        take-write_u32,
        drop-write_u32,
        read_u32-write_u32 e v h,
      )
      refl

pub take_bytes-append :
    (n : ℕ) (xs rest : List ℕ) → n ≡ length xs → take_bytes n (xs ++ rest) ≡ (ok xs, rest)
unfolding take_bytes
take_bytes-append n xs rest h =
    rw
      (
        le→ltb (length (xs ++ rest)) n (omega (arith, length-append xs rest)),
        take-append_exact n xs rest h,
        drop-append_exact n xs rest h,
      )
      refl

-- The padding brings a length to the multiple of four that the reader skips.
pub align-padding : (n : ℕ) → n + padding n ≡ align_down (n + 3)
align-padding n = omega arith

get_elem?-append_exact :
    (n : ℕ) (xs ys : List ℕ) → n ≡ length xs → get_elem? (xs ++ ys) n ≡ get_elem? ys 0
get_elem?-append_exact zero [] ys h = refl
get_elem?-append_exact zero (x ∷ xs) ys h = absurd (omega arith)
get_elem?-append_exact (suc n) [] ys h = absurd (omega arith)
get_elem?-append_exact (suc n) (x ∷ xs) ys h = get_elem?-append_exact n xs ys (omega arith)

string_value-lem :
    (bytes : List ℕ)
    → has_nul bytes ≡ false
    → string_value (length bytes + 1) (bytes ++ (0 ∷ [])) ≡ ok (some bytes)
unfolding string_value
string_value-lem bytes h =
    rw (last, string_value)
      (rw (take-append_exact (length bytes + 1 - 1) bytes (0 ∷ []) (omega arith), h) refl)
  where
    last : get_elem? (bytes ++ (0 ∷ [])) (length bytes + 1 - 1) ≡ some 0
    last = get_elem?-append_exact (length bytes + 1 - 1) bytes (0 ∷ []) (omega arith)

zeros-add_one : (n : ℕ) → zeros (1 + n) ≡ (0 ∷ []) ++ zeros n
zeros-add_one n = ap zeros {x = 1 + n} {y = suc n} (omega arith)

length-zeros : (n : ℕ) → length (zeros n) ≡ n
length-zeros n = length-replicate n 0

-- Reading a string behind its length word.
string_body :
    (e : Endian) (bytes pad rest : List ℕ)
    → has_nul bytes ≡ false
    → length bytes + 1 < 2 ^ 32
    → align_down (length bytes + 1 + 3) ≡ length ((bytes ++ (0 ∷ [])) ++ pad)
    → string e (write_u32 e (length bytes + 1) ++ (((bytes ++ (0 ∷ [])) ++ pad) ++ rest))
      ≡ (ok (some bytes), rest)
unfolding string
string_body e bytes pad rest n h l =
    rw
      (
        uint-write_u32 e (length bytes + 1) (((bytes ++ (0 ∷ [])) ++ pad) ++ rest) h,
        ne→== (length bytes + 1) 0 (omega arith),
        lt→leb (2 ^ 64) (length bytes + 1 + 3) (omega arith),
        take_bytes-append (align_down (length bytes + 1 + 3)) ((bytes ++ (0 ∷ [])) ++ pad) rest l,
        take-append_exact (length bytes + 1) (bytes ++ (0 ∷ [])) pad
            (omega (arith, length-append bytes (0 ∷ []))),
        string_value-lem bytes n,
      )
      refl

-- A string without NUL that fits the wire comes back from its encoding, and the cursor stands behind
-- the padding.
pub string-write_string :
    (e : Endian) (bytes rest : List ℕ)
    → has_nul bytes ≡ false
    → length bytes + 1 < 2 ^ 32
    → string e (write_string e (some bytes) ++ rest) ≡ (ok (some bytes), rest)
unfolding write_string
string-write_string e bytes rest n h =
    rw
      (
        zeros-add_one (padding (length bytes + 1)),
        append_assoc (write_u32 e (length bytes + 1)),
        ← append_assoc bytes (0 ∷ []) (zeros (padding (length bytes + 1))),
      )
      (string_body e bytes (zeros (padding (length bytes + 1))) rest n h (
        omega (
          arith,
          length-append (bytes ++ (0 ∷ [])) (zeros (padding (length bytes + 1))),
          length-append bytes (0 ∷ []),
          length-zeros (padding (length bytes + 1)),
        )))

pub array-write_array :
    (e : Endian) (bytes rest : List ℕ)
    → length bytes < 2 ^ 32
    → array e (write_array e (some bytes) ++ rest) ≡ (ok bytes, rest)
unfolding array write_array
array-write_array e bytes rest h =
    rw
      (
        append_assoc (write_u32 e (length bytes)) (bytes ++ zeros (padding (length bytes))) rest,
        uint-write_u32 e (length bytes) ((bytes ++ zeros (padding (length bytes))) ++ rest) h,
        lt→leb (2 ^ 64) (length bytes + 3) (omega arith),
        take_bytes-append (align_down (length bytes + 3)) (bytes ++ zeros (padding (length bytes)))
            rest
            (omega (
              arith,
              length-append bytes (zeros (padding (length bytes))),
              length-zeros (padding (length bytes)),
            )),
        take-append_exact (length bytes) bytes (zeros (padding (length bytes))) refl,
      )
      refl

-- `variableSize` is the number of bytes that `writeString` writes, a multiple of four, and it is
-- given only where the length fits its word.
pub variable_size-write_string :
    (e : Endian) (bytes : List ℕ) (n : ℕ)
    → variable_size (length bytes) 1 ≡ ok n
    → (length (write_string e (some bytes)) ≡ n) × (n % 4 ≡ 0) × (length bytes + 1 < 2 ^ 32)
unfolding variable_size write_string
variable_size-write_string e bytes n p = ground (
  arith,
  length-append (write_u32 e (length bytes + 1)) (bytes ++ zeros (1 + padding (length bytes + 1))),
  length-append bytes (zeros (1 + padding (length bytes + 1))),
  length-zeros (1 + padding (length bytes + 1)),
  length-write_u32 e (length bytes + 1),
)

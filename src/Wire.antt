-- ===== src/Wire.antt =====
-- src/wire.zig: the eight-byte message header, complete messages in a receive buffer, and the
-- cursor that generated decoders read typed arguments with. A byte is a number below 256; a slice
-- is a list. The byte order is the target's, so it is an argument; `usize` has 64 bits.
pub mod Bytes
pub mod Headers
pub mod Cursors
pub mod Messages
mod Tests
use wayring.Base.{
  ltb, leb, ◌==◌, if◌then◌else◌, length, get_elem?, take, drop, Result, ◌>>=◌, fail_if, and_then,
  null_sender, invalid_size, unaligned_size, unexpected_end, length_overflow, invalid_string,
  trailing_arguments, ok, err, ℕ, ◌+◌, ◌-◌, ◌*◌, ◌/◌, ◌%◌, ◌^◌, Bool, false, not, ◌||◌, Option,
  none, some, List, [], ◌∷◌, ◌++◌, ◌>>◌,
}

-- `builtin.cpu.arch.endian()`.
pub data Endian : Type 0 where
  little big : Endian

abbrev pub header_len : ℕ
header_len = 8

abbrev pub max_message_len : ℕ
max_message_len = 2 ^ 16 - 1

-- `readU32`; its argument is a slice of four bytes.
unfoldable pub read_u32 : Endian → List ℕ → ℕ
read_u32 little (a ∷ b ∷ c ∷ d ∷ _) = a + 256 * b + 65536 * c + 16777216 * d
read_u32 big (a ∷ b ∷ c ∷ d ∷ _) = 16777216 * a + 65536 * b + 256 * c + d
read_u32 _ _ = 0

-- `writeU32`: the four bytes that it stores.
unfoldable pub write_u32 : Endian → ℕ → List ℕ
write_u32 little v = (v % 256) ∷ (v / 256 % 256) ∷ (v / 65536 % 256) ∷ (v / 16777216 % 256) ∷ []
write_u32 big v = (v / 16777216 % 256) ∷ (v / 65536 % 256) ∷ (v / 256 % 256) ∷ (v % 256) ∷ []

pub record Header : Type 0 where
  pub object_id : ℕ
  pub opcode : ℕ
  pub size : ℕ

-- `Header.decode`: `none` until all eight header bytes are available.
unfoldable pub decode_header : Endian → List ℕ → Result (Option Header)
decode_header e bytes = if ltb (length bytes) header_len then ok none else do
  let object_id = read_u32 e (take 4 bytes)
  let word = read_u32 e (take 4 (drop 4 bytes))
  let size = word / 2 ^ 16 % 2 ^ 16
  fail_if (object_id == 0) null_sender
  fail_if (ltb size header_len) invalid_size
  fail_if (not (size % 4 == 0)) unaligned_size
  ok (some (record { object_id = object_id; opcode = word % 2 ^ 16; size = size }))

-- `Header.encode`: the eight bytes stored. The opcode has 16 bits, so `|` adds.
unfoldable pub encode_header : Endian → Header → Result (List ℕ)
encode_header e h = do
  fail_if (h.object_id == 0) null_sender
  fail_if (ltb h.size header_len) invalid_size
  fail_if (not (h.size % 4 == 0)) unaligned_size
  ok (write_u32 e h.object_id ++ write_u32 e (h.size * 2 ^ 16 + h.opcode))

-- A complete message borrowed from a receive buffer.
pub record Message : Type 0 where
  pub header : Header
  pub payload : List ℕ

-- `bytes[header_len..header.size]`.
abbrev pub message_of : Header → List ℕ → Message
message_of h bytes = record { header = h; payload = drop header_len (take h.size bytes) }

complete : List ℕ → Option Header → Result (Option Message)
complete bytes none = ok none
complete bytes (some h) =
    if ltb (length bytes) h.size then ok none else ok (some (message_of h bytes))

-- `Message.decode`: the first complete message.
unfoldable pub decode_message : Endian → List ℕ → Result (Option Message)
unfolding complete
decode_message e bytes = decode_header e bytes >>= complete bytes

-- A method of `Arguments`: it moves the cursor over the bytes that remain, also where it fails.
abbrev pub Cursor : Type 0 → Type 0
Cursor A = List ℕ → Result A × List ℕ

unfoldable pub take_bytes : ℕ → Cursor (List ℕ)
take_bytes n rest =
    if ltb (length rest) n then (err unexpected_end, rest) else (ok (take n rest), drop n rest)

unfoldable pub uint : Endian → Cursor ℕ
unfolding take_bytes
uint e rest = and_then (take_bytes 4 rest) λ bytes rest'. (ok (read_u32 e bytes), rest')

-- `padded & ~3` for a length already increased by three.
abbrev pub align_down : ℕ → ℕ
align_down n = n / 4 * 4

-- `std.mem.indexOfScalar(u8, bytes, 0) != null`.
unfoldable pub has_nul : List ℕ → Bool
has_nul [] = false
has_nul (b ∷ bs) = (b == 0) || has_nul bs

-- The test of `Arguments.string` on its `len` bytes: a NUL last, and nowhere else.
unfoldable pub string_value : ℕ → List ℕ → Result (Option (List ℕ))
string_value len value = elim (get_elem? value (len - 1)) [
  | none ↦ err invalid_string
  | some final ↦
      if not (final == 0) || has_nul (take (len - 1) value)
      then err invalid_string
      else ok (some (take (len - 1) value))
]

unfoldable pub string : Endian → Cursor (Option (List ℕ))
string e rest = and_then (uint e rest) λ len rest₁.
    if len == 0
    then (ok none, rest₁)
    else if leb (2 ^ 64) (len + 3)
    then (err length_overflow, rest₁)
    else and_then (take_bytes (align_down (len + 3)) rest₁)
        λ bytes rest₂. (string_value len (take len bytes), rest₂)

unfoldable pub array : Endian → Cursor (List ℕ)
array e rest = and_then (uint e rest) λ len rest₁.
    if leb (2 ^ 64) (len + 3)
    then (err length_overflow, rest₁)
    else and_then (take_bytes (align_down (len + 3)) rest₁)
        λ bytes rest₂. (ok (take len bytes), rest₂)

unfoldable pub finish : List ℕ → Result (Unit {0})
finish rest = fail_if (not (length rest == 0)) trailing_arguments

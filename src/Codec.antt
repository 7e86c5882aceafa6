-- ===== src/Codec.antt =====
-- src/codegen.zig: the argument encoders that the scanner puts at the head of every generated
-- module. A reservation receives bytes in order, so an encoder is the list of bytes it writes;
-- whether they fit the reservation is the concern of src/tx.zig.
pub mod Roundtrip
mod Tests
use wayring.Base.{
  ltb, leb, if◌then◌else◌, length, replicate, Result, ◌>>=◌, ◌>>◌, fail_if, length_overflow, ok, ℕ,
  ◌+◌, ◌-◌, ◌%◌, ◌^◌, Option, none, some, List, ◌++◌,
}
use wayring.Wire.{Endian, write_u32, align_down}

-- `variableSize`: the room that a string or an array takes on the wire.
unfoldable pub variable_size : ℕ → ℕ → Result ℕ
variable_size len terminator = do
  fail_if (leb (2 ^ 64) (len + terminator)) length_overflow
  fail_if (ltb (2 ^ 32 - 1) (len + terminator)) length_overflow
  fail_if (leb (2 ^ 64) (len + terminator + 3)) length_overflow
  fail_if (leb (2 ^ 64) (4 + align_down (len + terminator + 3))) length_overflow
  ok (4 + align_down (len + terminator + 3))

-- `(4 - len % 4) % 4`
abbrev pub padding : ℕ → ℕ
padding len = (4 - len % 4) % 4

-- `zeros[0..n]`
abbrev pub zeros : ℕ → List ℕ
zeros n = replicate n 0

-- `writeString`, whose `@intCast` holds where `variable_size` succeeds.
unfoldable pub write_string : Endian → Option (List ℕ) → List ℕ
write_string e none = write_u32 e 0
write_string e (some bytes) =
    write_u32 e (length bytes + 1) ++ (bytes ++ zeros (1 + padding (length bytes + 1)))

-- `writeArray`
unfoldable pub write_array : Endian → Option (List ℕ) → List ℕ
write_array e none = write_u32 e 0
write_array e (some bytes) = write_u32 e (length bytes) ++ (bytes ++ zeros (padding (length bytes)))

-- ===== src/Wire/Cursors.antt =====
-- src/wire.zig, `Arguments`: what a successful read says of the bytes it took.
use wayring.Base.{
  All, length, take, drop, length-take, length-drop, All-take, ok, ℕ, ◌+◌, ◌-◌, ◌^◌, ◌≤◌, ◌<◌, ◌≡◌,
  ◌≢◌, false, none, some, List, arith,
}
use wayring.Wire.{Endian, read_u32, align_down, take_bytes, uint, string, string_value, has_nul}
use wayring.Wire.Bytes.{IsByte, read_u32-lt}

-- What `string_value` accepts has no NUL.
string_value_ok :
    (len : ℕ) (value s : List ℕ)
    → string_value len value ≡ ok (some s)
    → (has_nul s ≡ false) × (s ≡ take (len - 1) value)
unfolding string_value
string_value_ok len value s p = ground arith

string_value_ne_none : (len : ℕ) (value : List ℕ) → string_value len value ≢ ok none
unfolding string_value
string_value_ne_none len value p = ground arith

take_bytes_ok :
    (n : ℕ) (rest bytes rest' : List ℕ)
    → take_bytes n rest ≡ (ok bytes, rest')
    → (n ≤ length rest) × (bytes ≡ take n rest) × (rest' ≡ drop n rest)
unfolding take_bytes
take_bytes_ok n rest bytes rest' p = ground arith

uint_ok :
    (e : Endian) (rest : List ℕ) (v : ℕ) (rest' : List ℕ)
    → uint e rest ≡ (ok v, rest')
    → (4 ≤ length rest) × (v ≡ read_u32 e (take 4 rest)) × (rest' ≡ drop 4 rest)
unfolding uint take_bytes
uint_ok e rest v rest' p = ground arith

-- A string that is read has no NUL, fits its length word, and took that word and its bytes with the
-- padding from the cursor.
pub string_ok :
    (e : Endian) (bytes s rest : List ℕ)
    → All IsByte bytes
    → string e bytes ≡ (ok (some s), rest)
    → (has_nul s ≡ false)
      × (length s + 1 < 2 ^ 32)
      × (length bytes ≡ 4 + align_down (length s + 1 + 3) + length rest)
unfolding string uint take_bytes
string_ok e bytes s rest a p = ground (
  arith,
  read_u32-lt e (take 4 bytes) (All-take IsByte 4 bytes a),
  string_value_ok len (take len body) s,
  string_value_ne_none len (take len body),
  length-take (len - 1) (take len body),
  length-take len body,
  length-take (align_down (len + 3)) (drop 4 bytes),
  length-drop (align_down (len + 3)) (drop 4 bytes),
  length-drop 4 bytes,
)
  where
    len : ℕ
    len = read_u32 e (take 4 bytes)

    body : List ℕ
    body = take (align_down (len + 3)) (drop 4 bytes)

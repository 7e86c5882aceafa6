-- ===== src/Wire/Bytes.antt =====
-- src/wire.zig, `readU32` and `writeU32`: each undoes the other, in both byte orders.
use wayring.Base.{All, length, take, drop, ℕ, ◌^◌, ◌≤◌, ◌<◌, ◌≡◌, refl, List, [], ◌∷◌, ◌++◌, arith}
use wayring.Wire.{Endian, little, big, read_u32, write_u32}

abbrev pub IsByte : ℕ → Type 0
IsByte b = b < 256

pub length-write_u32 : (e : Endian) (v : ℕ) → length (write_u32 e v) ≡ 4
unfolding write_u32
length-write_u32 little v = refl
length-write_u32 big v = refl

pub read_u32-write_u32 : (e : Endian) (v : ℕ) → v < 2 ^ 32 → read_u32 e (write_u32 e v) ≡ v
unfolding read_u32 write_u32
read_u32-write_u32 little v h = omega arith
read_u32-write_u32 big v h = omega arith

-- A word is read from the first four bytes alone.
pub take-write_u32 :
    (e : Endian) (v : ℕ) (rest : List ℕ) → take 4 (write_u32 e v ++ rest) ≡ write_u32 e v
unfolding write_u32
take-write_u32 little v rest = refl
take-write_u32 big v rest = refl

pub drop-write_u32 : (e : Endian) (v : ℕ) (rest : List ℕ) → drop 4 (write_u32 e v ++ rest) ≡ rest
unfolding write_u32
drop-write_u32 little v rest = refl
drop-write_u32 big v rest = refl

pub read_u32-take :
    (e : Endian) (bytes : List ℕ) → 4 ≤ length bytes → read_u32 e (take 4 bytes) ≡ read_u32 e bytes
unfolding read_u32
read_u32-take little (a ∷ b ∷ c ∷ d ∷ r) h = refl
read_u32-take big (a ∷ b ∷ c ∷ d ∷ r) h = refl
read_u32-take e _ h = absurd (omega arith)

pub read_u32-lt : (e : Endian) (bytes : List ℕ) → All IsByte bytes → read_u32 e bytes < 2 ^ 32
unfolding read_u32
read_u32-lt little (a ∷ b ∷ c ∷ d ∷ r) h = omega arith
read_u32-lt big (a ∷ b ∷ c ∷ d ∷ r) h = omega arith
read_u32-lt _ _ h = omega arith

pub write_u32-read_u32 :
    (e : Endian) (bytes : List ℕ)
    → All IsByte bytes
    → length bytes ≡ 4
    → write_u32 e (read_u32 e bytes) ≡ bytes
unfolding read_u32 write_u32
write_u32-read_u32 little (a ∷ b ∷ c ∷ d ∷ []) h l = ground arith
write_u32-read_u32 big (a ∷ b ∷ c ∷ d ∷ []) h l = ground arith
write_u32-read_u32 e _ h l = absurd (omega arith)

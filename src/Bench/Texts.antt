-- ===== src/Bench/Texts.antt =====
-- What the programs under bench compare: C strings, as texts, and what came from a pipe, as bytes.
use wayring.Base.{
  ◌==◌, length, ℕ, ◌≡◌, refl, Bool, true, false, ◌&&◌, Option, none, some, List, [], ◌∷◌, arith,
}
use Prim.Native.String.{String}
use Prim.Native.Char.{code}
use text.Mathlib.Text

-- `strcmp(a, b) == 0`
unfoldable pub streq : String → String → Bool
streq a b = Text.◌==◌ a b

-- `a != NULL && strcmp(a, b) == 0`
abbrev pub is_text : Option String → String → Bool
is_text none b = false
is_text (some a) b = streq a b

-- The bytes of an ASCII array `static const char name[]`, its NUL included.
abbrev pub c_bytes : String → List ℕ
c_bytes String.[] = 0 ∷ []
c_bytes (String.◌∷◌ c s) = code c ∷ c_bytes s

-- `count == (ssize_t) sizeof(b) && memcmp(a, b, sizeof(b)) == 0` for the bytes `a` that were read.
unfoldable pub memeq : List ℕ → List ℕ → Bool
memeq [] [] = true
memeq [] (y ∷ ys) = false
memeq (x ∷ xs) [] = false
memeq (x ∷ xs) (y ∷ ys) = (x == y) && memeq xs ys

-- What `read` gave: `none` for an error.
abbrev pub is_read : Option (List ℕ) → String → Bool
is_read none s = false
is_read (some bytes) s = memeq bytes (c_bytes s)

-- `written == (ssize_t) sizeof(s)` for what `write` returned.
abbrev pub is_written : Option ℕ → String → Bool
is_written none s = false
is_written (some n) s = n == length (c_bytes s)

read_whole : is_read (some (b'h' ∷ b'i' ∷ 0 ∷ [])) "hi" ≡ true
unfolding memeq
read_whole = refl

pub memeq_refl : (xs : List ℕ) → memeq xs xs ≡ true
unfolding memeq
memeq_refl [] = refl
memeq_refl (x ∷ xs) = ground (arith, memeq_refl xs)

-- ===== src/Base/Results.antt =====
-- Zig's error values, which are global names, and the error unions that carry them.
use mathlib.Core.Bool.{Bool, true, false}

-- The error names of the modelled files.
pub data Error : Type 0 where
  null_sender invalid_size unaligned_size unexpected_end length_overflow invalid_string : Error
  trailing_arguments message_too_large unknown_operation : Error
  invalid_object_version unknown_opcode unsupported_version : Error
  invalid_config capacity_overflow exhausted stale_lease out_of_memory : Error
  slot_out_of_range slot_inactive wrong_generation slot_space_exhausted : Error
  invalid_id invalid_transition duplicate_id full : Error

-- `Error!A`.
pub data Result {ℓ} (A : Type ℓ) : Type ℓ where
  ok : A → Result A
  err : Error → Result A

infixl 5 ◌>>=◌ ◌>>◌
abbrev pub ◌>>=◌ {ℓ κ} : {A : Type ℓ} {B : Type κ} → Result A → (A → Result B) → Result B
ok a >>= k = k a
err x >>= k = err x

abbrev pub ◌>>◌ {ℓ} : {B : Type ℓ} → Result (Unit {0}) → Result B → Result B
r >> s = r >>= λ _. s

-- `if (bad) return error.x;`
abbrev pub fail_if : Bool → Error → Result (Unit {0})
fail_if true x = err x
fail_if false x = ok tt

-- `try` in a method that keeps what it has done to its state where it fails.
abbrev pub and_then : {S A B : Type 0} → Result A × S → (A → S → Result B × S) → Result B × S
and_then (ok a, s) k = k a s
and_then (err x, s) k = (err x, s)

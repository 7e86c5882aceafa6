-- ===== src/Bench.antt =====
-- What the models of the programs under bench share. Those programs are callbacks of libwayland, so
-- a handler takes the request's arguments and what libwayland or the kernel returned to it, and gives
-- the new state and the calls that it made, in order. A resource or a pointer is an `Option ℕ` with
-- `none` for NULL; an int32_t and a wl_fixed_t are their 32-bit patterns.
pub mod Among
pub mod Branches
pub mod Descriptors
pub mod History
pub mod Launch
pub mod Monitors
pub mod Options
pub mod Routes
pub mod Seats
pub mod Tallies
pub mod Texts
use wayring.Base.{
  ◌==◌, if◌then◌else◌, ℕ, ◌-◌, ◌*◌, ◌%◌, ◌^◌, ◌≡◌, refl, ap, Bool, true, false, Option, none, some,
  List, [], ◌∷◌, arith,
}

pub data Effect (E : Type 0) : Type 0 where
  send : E → Effect E
  post_implementation_error post_no_memory terminate : Effect E
  destroy_resource close_fd : ℕ → Effect E

abbrev pub Step : Type 0 → Type 0 → Type 0
Step S E = S × List (Effect E)

-- `a == b` on pointers.
abbrev pub same : Option ℕ → Option ℕ → Bool
same none none = true
same none (some b) = false
same (some a) none = false
same (some a) (some b) = a == b

abbrev pub is_null : Option ℕ → Bool
is_null none = true
is_null (some _) = false

-- A negative int32_t.
abbrev pub minus : ℕ → ℕ
minus n = 2 ^ 32 - n

-- `wl_fixed_from_int` of a small integer.
abbrev pub fixed : ℕ → ℕ
fixed n = 256 * n

-- `fcntl(fd, F_GETFD)` succeeded and has FD_CLOEXEC, which is bit 0.
abbrev pub is_cloexec : Option ℕ → Bool
is_cloexec none = false
is_cloexec (some flags) = flags % 2 == 1

-- `(fcntl(fd, F_GETFD) & FD_CLOEXEC) != 0`, where fcntl gives -1, all bits set, if it fails.
abbrev pub has_cloexec_bit : Option ℕ → Bool
has_cloexec_bit none = true
has_cloexec_bit (some flags) = flags % 2 == 1

module _ {E : Type 0} where
  -- A request was refused.
  abbrev pub refused : List (Effect E) → Bool
  refused [] = false
  refused (post_implementation_error ∷ es) = true
  refused (_ ∷ es) = refused es

module _ {S E : Type 0} where
  -- A handler that only refuses.
  abbrev pub reject : S → Step S E
  reject s = (s, post_implementation_error ∷ [])

  -- A handler that makes a resource, if wl_resource_create returned one, and keeps no note of it.
  abbrev pub make : Option ℕ → S → Step S E
  make created s = (s, if is_null created then post_no_memory ∷ [] else [])

pub same_eq : (a b : Option ℕ) → same a b ≡ true → a ≡ b
same_eq none none e = refl
same_eq none (some b) e = cc
same_eq (some a) none e = cc
same_eq (some a) (some b) e = ap some (ground arith)

-- ===== src/Bench/Descriptors.antt =====
-- How often a descriptor is closed by the calls of a handler.
use wayring.Base.{◌==◌, if◌then◌else◌, ℕ, ◌+◌, ◌≡◌, List, [], ◌∷◌, ◌++◌, arith}
use wayring.Bench.{Effect, close_fd}

-- How often `fd` stands in a list.
unfoldable pub count : ℕ → List ℕ → ℕ
count fd [] = 0
count fd (x ∷ xs) = (if x == fd then 1 else 0) + count fd xs

pub count-append : (fd : ℕ) (xs ys : List ℕ) → count fd (xs ++ ys) ≡ count fd xs + count fd ys
unfolding count
count-append fd [] ys = omega arith
count-append fd (x ∷ xs) ys = ground (arith, count-append fd xs ys)

module _ {E : Type 0} where
  -- How often it is closed.
  unfoldable pub closes : ℕ → List (Effect E) → ℕ
  closes fd [] = 0
  closes fd (close_fd x ∷ es) = (if x == fd then 1 else 0) + closes fd es
  closes fd (_ ∷ es) = closes fd es

  pub closes-append :
      (fd : ℕ) (es fs : List (Effect E)) → closes fd (es ++ fs) ≡ closes fd es + closes fd fs
  unfolding closes
  closes-append fd [] fs = omega arith
  closes-append fd (close_fd x ∷ es) fs = ground (arith, closes-append fd es fs)
  closes-append fd (_ ∷ es) fs = closes-append fd es fs

-- ===== src/Bench/Tallies.antt =====
-- Flags and counters of a server's state that follow the requests one by one.
use wayring.Base.{if◌then◌else◌, ℕ, ◌+◌, ◌≡◌, refl, Bool, false, ◌||◌, List, [], ◌∷◌, ◌++◌, arith}
use wayring.Bench.History.{run, calls}

module _ {R : Type 0} where
  -- Whether some request passes a test, and how many do.
  unfoldable pub any : (R → Bool) → List R → Bool
  any test [] = false
  any test (r ∷ rs) = test r || any test rs

  unfoldable pub tally : (R → Bool) → List R → ℕ
  tally test [] = 0
  tally test (r ∷ rs) = (if test r then 1 else 0) + tally test rs

  pub any-append :
      (test : R → Bool) (rs qs : List R) → any test (rs ++ qs) ≡ any test rs || any test qs
  unfolding any
  any-append test [] qs = refl
  any-append test (r ∷ rs) qs = ground (arith, any-append test rs qs)

  -- A tally of what one request passes.
  pub tally-append :
      (test : R → Bool) (rs qs : List R) → tally test (rs ++ qs) ≡ tally test rs + tally test qs
  unfolding tally
  tally-append test [] qs = omega arith
  tally-append test (r ∷ rs) qs = ground (arith, tally-append test rs qs)

module _ {S R C : Type 0} (step : R → S → S × List C) where
  -- A flag that a request sets when it passes a test, and none clears.
  pub flag-run :
      (flag : S → Bool) (test : R → Bool)
      → ((r : R) (s : S) → flag (step r s).0 ≡ test r || flag s)
      → (rs : List R) (s : S) → flag (run step s rs) ≡ any test rs || flag s
  unfolding run any
  flag-run flag test each [] s = refl
  flag-run flag test each (r ∷ rs) s =
      ground (arith, flag-run flag test each rs (step r s).0, each r s)

  -- A counter that a request raises by one when it passes a test.
  pub counter-run :
      (counter : S → ℕ) (test : R → Bool)
      → ((r : R) (s : S) → counter (step r s).0 ≡ (if test r then 1 else 0) + counter s)
      → (rs : List R) (s : S) → counter (run step s rs) ≡ tally test rs + counter s
  unfolding run tally
  counter-run counter test each [] s = omega arith
  counter-run counter test each (r ∷ rs) s =
      ground (arith, counter-run counter test each rs (step r s).0, each r s)

  -- A counter that follows the calls of one kind.
  pub called-run :
      (counter : S → ℕ) (kind : C → Bool)
      → ((r : R) (s : S) → counter (step r s).0 ≡ tally kind (step r s).1 + counter s)
      → (rs : List R) (s : S) → counter (run step s rs) ≡ tally kind (calls step s rs) + counter s
  unfolding run calls tally
  called-run counter kind each [] s = omega arith
  called-run counter kind each (r ∷ rs) s = ground (
    arith,
    tally-append kind (step r s).1 (calls step (step r s).0 rs),
    called-run counter kind each rs (step r s).0,
    each r s,
  )

-- ===== src/BenchClient/Arguments/Counts.antt =====
-- src/bench/libwayland-client.c: the counts that `parse_count` reads.
use wayring.Base.{
  ltb, ◌==◌, if◌then◌else◌, All, length, ℕ, ◌+◌, ◌-◌, ◌*◌, ◌^◌, ◌<◌, ◌≡◌, sym, ap, ◌∙◌, true, false,
  not, ◌||◌, none, some, List, [], ◌∷◌, map, arith,
}
use native.Mathlib.Nat.{pow-suc}
use wayring.BenchClient.Arguments.{
  is_space, is_digit, skip_spaces, digits, strtoull, parse_count, number_of, is_empty,
}

-- The text of decimal digits, and the number that they stand for.
abbrev pub text_of : List ℕ → List ℕ
text_of ds = map (λ d. 48 + d) ds

unfoldable pub value_of : List ℕ → ℕ
value_of [] = 0
value_of (d ∷ ds) = d * 10 ^ length ds + value_of ds

abbrev pub IsDigit : ℕ → Type 0
IsDigit d = d < 10

moved :
    (n d power value : ℕ) → (n * 10 + d) * power + value ≡ n * (power * 10) + (d * power + value)
moved n d power value = grind arith

starts_digit : (d : ℕ) → IsDigit d → is_digit (48 + d) ≡ true
starts_digit d h = ground arith

no_space : (d : ℕ) → is_space (48 + d) ≡ false
no_space d = ground arith

no_sign : (d sign : ℕ) → sign < 48 → (48 + d == sign) ≡ false
no_sign d sign h = ground arith

digits-text_of :
    (n : ℕ) (ds : List ℕ)
    → All IsDigit ds
    → digits n (text_of ds) ≡ (n * 10 ^ length ds + value_of ds, [])
unfolding digits value_of
digits-text_of n [] a = ap (λ m. (m, [])) {x = n} {y = n * 1 + 0} (omega arith)
digits-text_of n (d ∷ ds) (h, a) = rw (starts_digit d h) (
    ap (λ m. digits m (text_of ds)) {x = n * 10 + (48 + d - 48)} {y = n * 10 + d} (omega arith)
    ∙ digits-text_of (n * 10 + d) ds a
    ∙ ap (λ m. (m, []))
        (moved n d (10 ^ length ds) (value_of ds)
          ∙ ap (λ m. n * m + (d * 10 ^ length ds + value_of ds)) (sym (pow-suc 10 (length ds)))))

nothing_before : (power n : ℕ) → 0 * power + n ≡ n
nothing_before power n = omega arith

strtoull-text_of :
    (d : ℕ) (ds : List ℕ)
    → All IsDigit (d ∷ ds)
    → strtoull (text_of (d ∷ ds)) ≡ number_of false (value_of (d ∷ ds), [])
unfolding strtoull skip_spaces
strtoull-text_of d ds (h, a) =
    rw (no_space d, no_sign d 45 (omega arith), no_sign d 43 (omega arith), starts_digit d h)
      (ap (number_of false) (
        digits-text_of 0 (d ∷ ds) (h, a)
        ∙ ap (λ m. (m, [])) (nothing_before (10 ^ length (d ∷ ds)) (value_of (d ∷ ds)))))

-- `parse_count` gives the number that a text of decimal digits stands for, if it fits into 64 bits, and
-- fails for a greater one. The text has a digit at least.
pub parse_count-text_of :
    (d : ℕ) (ds : List ℕ)
    → All IsDigit (d ∷ ds)
    → parse_count (text_of (d ∷ ds))
      ≡ (if ltb (value_of (d ∷ ds)) (2 ^ 64) then some (value_of (d ∷ ds)) else none)
unfolding parse_count
parse_count-text_of d ds a =
    ap (λ n. if n.is_range_error || not (is_empty n.end_of) then none else some n.result)
      (strtoull-text_of d ds a)
    ∙ fits (value_of (d ∷ ds))
  where
    fits :
        (v : ℕ)
        → (if (number_of false (v, [])).is_range_error
              || not (is_empty (number_of false (v, [])).end_of)
            then none
            else some (number_of false (v, [])).result)
          ≡ (if ltb v (2 ^ 64) then some v else none)
    fits v = ground arith

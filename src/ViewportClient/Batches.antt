-- ===== src/ViewportClient/Batches.antt =====
-- src/bench/viewport-benchmark.c, the client: what is sent, and how often the server is waited for.
use native.Mathlib.Nat.{div-add-mod', mod-lt, zero-div, div-eq_of_lt-le}
use native.Mathlib.Decide.{dec_lt}
use wayring.Base.{
  ◌==◌, if◌then◌else◌, Bool-cases, ℕ, zero, suc, ◌+◌, ◌*◌, ◌/◌, ◌%◌, ◌≤◌, ◌<◌, ◌≡◌, refl, ap, ◌≢◌,
  ◌⊎◌, inl, inr, Bool, true, false, ◌++◌, arith,
}
use wayring.ViewportServer.Operations.{operation, operations}
use wayring.ViewportClient.{Sent, send_loop, last_roundtrip, send_operations}

-- The quotient grows by one exactly at the multiples.
step_quotient :
    (i b : ℕ)
    → 0 < b
    → (((i + 1) % b ≡ 0) × ((i + 1) / b ≡ i / b + 1)) ⊎ (((i + 1) % b ≢ 0) × ((i + 1) / b ≡ i / b))
step_quotient i b h = elim (dec_lt (i % b + 1) b) [
  | yes inside ↦
      let q : (i + 1) / b ≡ i / b =
        div-eq_of_lt-le b (omega (arith, div-add-mod' i b)) (omega (arith, div-add-mod' i b)) in
      inr ((λ z. omega (arith, ap (λ k. k * b) q, div-add-mod' (i + 1) b, div-add-mod' i b)), q)
  | no edge ↦
      let q : (i + 1) / b ≡ i / b + 1 =
        div-eq_of_lt-le b (omega (arith, div-add-mod' i b, mod-lt i h))
          (omega (arith, div-add-mod' i b, mod-lt i h)) in
      inl
        (omega (arith, ap (λ k. k * b) q, div-add-mod' (i + 1) b, div-add-mod' i b, mod-lt i h), q)
]

-- What was sent is `n` whole operations, all of `left` if nothing failed.
abbrev pub IsWhole : ℕ → Sent → Type 0
IsWhole left t = (n : ℕ) × (n ≤ left) × (t.requests ≡ operations n) × (t.success ≡ true → n ≡ left)

one_more :
    (left : ℕ) (t : Sent)
    → IsWhole left t
    → IsWhole (suc left) (record t { requests = operation ++ t.requests })
unfolding operations
one_more left t (n, le, e, all) = (suc n, omega arith, ap (◌++◌ operation) e, λ h. ap suc (all h))

only_one :
    (left k : ℕ)
    → IsWhole (suc left) (record { requests = operation; roundtrips = k; success = false })
unfolding operations
only_one left k = (1, omega arith, refl, λ h. cc)

module _ (batch : ℕ) (answers : ℕ → Bool) where
  send_loop-IsWhole : (left i k : ℕ) → IsWhole left (send_loop batch answers left i k)
  unfolding send_loop operations
  send_loop-IsWhole zero i k = (0, omega arith, refl, λ e. refl)
  send_loop-IsWhole (suc left) i k = elim (Bool-cases ((i + 1) % batch == 0)) [
    | inr between ↦
        rw between (
          one_more left (send_loop batch answers left (i + 1) k) (send_loop-IsWhole left (i + 1) k))
    | inl edge ↦ elim (Bool-cases (answers k)) [
      | inl good ↦
          rw (edge, good)
            (one_more left (send_loop batch answers left (i + 1) (k + 1))
              (send_loop-IsWhole left (i + 1) (k + 1)))
      | inr bad ↦ rw (edge, bad) (only_one left (k + 1))
    ]
  ]

  -- Whatever the roundtrips answer, whole operations are sent, and all of them if the call succeeds.
  pub send_operations-IsWhole :
      (count k : ℕ) → IsWhole count (send_operations batch answers count k)
  unfolding send_operations last_roundtrip
  send_operations-IsWhole count k =
      let (n, le, e, all) = send_loop-IsWhole count 0 k in (n, le, ground arith, ground arith)

module _ (batch : ℕ) (answers : ℕ → Bool) (patient : (k : ℕ) → answers k ≡ true)
    (positive : 0 < batch) where
  send_loop_patient :
      (left i k : ℕ)
      → ((send_loop batch answers left i k).success ≡ true)
        × ((send_loop batch answers left i k).roundtrips + i / batch ≡ k + (i + left) / batch)
  unfolding send_loop
  send_loop_patient zero i k = (refl, ap (λ j. k + j / batch) {x = i} {y = i + 0} (omega arith))
  send_loop_patient (suc left) i k = ground (
    arith,
    patient k,
    step_quotient i batch positive,
    send_loop_patient left (i + 1) k,
    send_loop_patient left (i + 1) (k + 1),
    shift,
  )
    where
      shift : (i + suc left) / batch ≡ (i + 1 + left) / batch
      shift = ap (λ j. j / batch) {x = i + suc left} {y = i + 1 + left} (omega arith)

  -- If every roundtrip is answered, the call succeeds, having sent `count` operations with one
  -- roundtrip for each batch that was begun.
  pub send_operations_patient :
      (count k : ℕ)
      → ((send_operations batch answers count k).success ≡ true)
        × ((send_operations batch answers count k).requests ≡ operations count)
        × ((send_operations batch answers count k).roundtrips
            ≡ k + count / batch + (if count % batch == 0 then 0 else 1))
  unfolding send_operations last_roundtrip
  send_operations_patient count k =
      let (n, le, e, all) = send_loop-IsWhole batch answers count 0 k in
      let (good, rounds) = send_loop_patient count 0 k in
      (
        ground (arith, patient (send_loop batch answers count 0 k).roundtrips),
        ground (arith, ap operations (all good)),
        ground (arith, start, whole),
      )
    where
      start : 0 / batch ≡ 0
      start = zero-div batch

      whole : (0 + count) / batch ≡ count / batch
      whole = ap (λ j. j / batch) {x = 0 + count} {y = count} (omega arith)

-- ===== src/BenchClient/Waiting.antt =====
-- src/bench/libwayland-client.c: the loops that wait for pongs, however the dispatches cut them.
use wayring.Base.{
  ltb, ◌==◌, Bool-cases, length, take, length-append, length-zero_of, joined, ℕ, suc, ◌+◌, ◌^◌, ◌≤◌,
  ◌<◌, ◌≡◌, refl, sym, ap, ◌∙◌, inl, inr, true, Option, none, some, List, [], ◌∷◌, ◌++◌, map, arith,
}
use wayring.Bench.Options.{u64}
use wayring.BenchClient.{Answers, handle_pong, dispatch, wait_for_ack, receive_loop, receive_phase}

-- The last of the pongs, or `before` if there are none.
unfoldable pub last_or : ℕ → List ℕ → ℕ
last_or before [] = before
last_or before (sequence ∷ pongs) = last_or sequence pongs

last_or-append :
    (before : ℕ) (xs ys : List ℕ) → last_or before (xs ++ ys) ≡ last_or (last_or before xs) ys
unfolding last_or
last_or-append before [] ys = refl
last_or-append before (x ∷ xs) ys = last_or-append x xs ys

dispatch_ack : (pongs : List ℕ) (a : Answers) → (dispatch pongs a).ack ≡ last_or a.ack pongs
unfolding dispatch last_or handle_pong
dispatch_ack [] a = refl
dispatch_ack (sequence ∷ pongs) a = dispatch_ack pongs (handle_pong sequence a)

dispatch_received :
    (pongs : List ℕ) (a : Answers)
    → a.received + length pongs < 2 ^ 64
    → (dispatch pongs a).received ≡ a.received + length pongs
unfolding dispatch handle_pong
dispatch_received [] a h = omega arith
dispatch_received (sequence ∷ pongs) a h =
    let next : Answers = handle_pong sequence a in
    let counted : next.received ≡ a.received + 1 = omega arith in
    dispatch_received pongs next (omega (arith, counted)) ∙ omega (arith, counted)

module _ (target sequence : ℕ) (more : List (Option (List ℕ))) where
  there :
      (ds : List (Option (List ℕ))) (a : Answers)
      → a.received ≡ target
      → a.ack ≡ sequence
      → receive_loop target sequence ds a ≡ some true
  unfolding receive_loop
  there [] a r k = ground arith
  there (none ∷ ds) a r k = ground arith
  there (some pongs ∷ ds) a r k = ground arith

  receive_loop_batches :
      (batches : List (List ℕ)) (a : Answers)
      → a.received + length (joined batches) ≡ target
      → target < 2 ^ 64
      → last_or a.ack (joined batches) ≡ sequence
      → receive_loop target sequence (map some batches ++ more) a ≡ some true
  unfolding receive_loop last_or
  receive_loop_batches [] a r w k = there more a (omega (arith, r)) k
  receive_loop_batches (b ∷ batches) a r w k = elim (Bool-cases (ltb a.received target)) [
    | inr all_there ↦
        let nothing : b ++ joined batches ≡ [] =
          length-zero_of (b ++ joined batches) (ground (arith, r)) in
        there (some b ∷ (map some batches ++ more)) a (ground (arith, r))
          (sym (ap (last_or a.ack) nothing) ∙ k)
    | inl some_missing ↦
        let size : length (b ++ joined batches) ≡ length b + length (joined batches) =
          length-append b (joined batches) in
        let counted = dispatch_received b a (omega (arith, r, w, size)) in
        rw some_missing (
          receive_loop_batches batches (dispatch b a) (omega (arith, counted, r, size)) w (
            ap (λ q. last_or q (joined batches)) (dispatch_ack b a)
            ∙ sym (last_or-append a.ack b (joined batches))
            ∙ k))
  ]

-- However the pongs are cut into dispatches, and whatever would come behind them, `receive_phase`
-- succeeds when as many came as it waits for and the last has the sequence of the phase.
pub receive_phase_batches :
    (count sequence : ℕ) (batches : List (List ℕ)) (more : List (Option (List ℕ))) (a : Answers)
    → length (joined batches) ≡ count
    → a.received + count < 2 ^ 64
    → last_or a.ack (joined batches) ≡ sequence
    → receive_phase count sequence (map some batches ++ more) a ≡ some true
unfolding receive_phase
receive_phase_batches count sequence batches more a c w k =
    ap (λ t. receive_loop t sequence (map some batches ++ more) a) {x = u64 (a.received + count)}
      {y = a.received + count} (omega arith)
    ∙ receive_loop_batches (a.received + count) sequence more batches a (omega (arith, c)) w k

-- `wait_for_ack` returns success only with the acknowledgement that it waits for, after some of the
-- dispatches.
pub wait_for_ack_only :
    (ack : ℕ) (batches : List (List ℕ)) (a : Answers)
    → wait_for_ack ack (map some batches) a ≡ some true
    → (n : ℕ) × (n ≤ length batches) × (last_or a.ack (joined (take n batches)) ≡ ack)
unfolding wait_for_ack last_or
wait_for_ack_only ack [] a e = (0, omega arith, ground arith)
wait_for_ack_only ack (b ∷ batches) a e = elim (Bool-cases (a.ack == ack)) [
  | inl now ↦ (0, omega arith, ground arith)
  | inr later ↦
      let (n, le, k) = wait_for_ack_only ack batches (dispatch b a) (ground arith) in
      (
        suc n,
        omega (arith, le),
        last_or-append a.ack b (joined (take n batches))
            ∙ ap (λ q. last_or q (joined (take n batches))) (sym (dispatch_ack b a))
            ∙ k,
      )
]

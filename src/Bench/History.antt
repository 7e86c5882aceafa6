-- ===== src/Bench/History.antt =====
-- What a server does over a history of requests, or a client over a history of events, for any
-- handler of one of them that gives the new state and the calls that it made.
use wayring.Base.{Bool-cases, ◌≡◌, refl, ap, inl, inr, Bool, true, false, List, [], ◌∷◌, ◌++◌}

module _ {S R C : Type 0} (step : R → S → S × List C) where
  -- The state after the requests of a history, in order.
  unfoldable pub run : S → List R → S
  run s [] = s
  run s (r ∷ rs) = run (step r s).0 rs

  -- The calls that the handlers made.
  unfoldable pub calls : S → List R → List C
  calls s [] = []
  calls s (r ∷ rs) = (step r s).1 ++ calls (step r s).0 rs

  pub run-append : (s : S) (rs qs : List R) → run s (rs ++ qs) ≡ run (run s rs) qs
  unfolding run
  run-append s [] qs = refl
  run-append s (r ∷ rs) qs = run-append (step r s).0 rs qs

  -- What every request keeps, every history keeps.
  pub run_inv :
      (P : S → Type 0)
      → ((r : R) (s : S) → P s → P (step r s).0)
      → (s : S) (rs : List R) → P s
      → P (run s rs)
  unfolding run
  run_inv P keep s [] p = p
  run_inv P keep s (r ∷ rs) p = run_inv P keep (step r s).0 rs (keep r s p)

  -- What is ticked at the end and not at the start was ticked by a request on the way.
  pub ticked_by :
      (tick : S → Bool) (rs : List R) (s : S)
      → tick s ≡ false
      → tick (run s rs) ≡ true
      → (before : List R) × (r : R) × (after : List R) × (rs ≡ before ++ (r ∷ after))
        × (tick (run s before) ≡ false)
        × (tick (step r (run s before)).0 ≡ true)
  unfolding run
  ticked_by tick [] s f t = cc
  ticked_by tick (r ∷ rs) s f t = elim (Bool-cases (tick (step r s).0)) [
    | inl now ↦ ([], r, rs, refl, f, now)
    | inr later ↦
        let (before, q, after, e, f', t') = ticked_by tick rs (step r s).0 later t in
        (r ∷ before, q, after, ap (◌∷◌ r) e, f', t')
  ]

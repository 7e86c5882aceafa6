-- ===== src/Bench/Monitors.antt =====
-- A monitor of a protocol: it sees the events that a server sends, one after the other, and stops at
-- the first that is out of turn.
use wayring.Base.{
  Option-cases, ◌≡◌, refl, sym, ap, ◌∙◌, inl, inr, Option, none, some, List, [], ◌∷◌, ◌++◌,
}
use wayring.Bench.{Effect, send}
use wayring.Bench.History.{calls}

module _ {M E : Type 0} (see : M → E → Option M) where
  abbrev pub and_then_watch : Option M → (M → Option M) → Option M
  and_then_watch none next = none
  and_then_watch (some m) next = next m

  unfoldable pub watch : List (Effect E) → M → Option M
  watch [] m = some m
  watch (send e ∷ es) m = and_then_watch (see m e) (λ n. watch es n)
  watch (_ ∷ es) m = watch es m

  watch_next :
      (es fs : List (Effect E)) (m n : M) → watch es m ≡ some n → watch (es ++ fs) m ≡ watch fs n
  unfolding watch
  watch_next [] fs m n h = ap (λ o. and_then_watch o (watch fs)) h
  watch_next (send e ∷ es) fs m n h = elim (Option-cases (see m e)) [
    | inl stopped ↦ absurd (cc)
    | inr (k, on) ↦
        rw on (watch_next es fs k n (sym (ap (λ o. and_then_watch o (watch es)) on) ∙ h))
  ]
  watch_next (_ ∷ es) fs m n h = watch_next es fs m n h

  -- If the calls of each request take the monitor from `m` back to `m`, so do those of a history.
  pub watch-calls :
      {S R : Type 0} (step : R → S → S × List (Effect E)) (m : M)
      → ((r : R) (s : S) → watch (step r s).1 m ≡ some m)
      → (rs : List R) (s : S) → watch (calls step s rs) m ≡ some m
  unfolding calls watch
  watch-calls step m each [] s = refl
  watch-calls step m each (r ∷ rs) s =
      watch_next (step r s).1 (calls step (step r s).0 rs) m m (each r s)
      ∙ watch-calls step m each rs (step r s).0

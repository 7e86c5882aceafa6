-- ===== src/Bench/Among.antt =====
-- Events that come in one piece among others.
use wayring.Base.{All, ◌≡◌, sym, ap, subst, ◌∙◌, List, [], ◌∷◌, ◌++◌}
use wayring.Bench.History
use wayring.Bench.History.{run}

-- `es` is `xs` with others before and behind it, which are all such that `P` holds.
pub record IsAmong {E : Type 0} (P : E → Type 0) (xs es : List E) : Type 0 where
  pub before : List E
  pub after : List E
  pub whole : es ≡ before ++ (xs ++ after)
  pub all_before : All P before
  pub all_after : All P after

module _ {S E C : Type 0} (step : E → S → S × List C) (P : E → Type 0) where
  -- What each such event keeps, all of them keep.
  pub run_all :
      (Q : S → Type 0)
      → ((e : E) (s : S) → P e → Q s → Q (step e s).0)
      → (es : List E) (s : S) → All P es
      → Q s
      → Q (run step s es)
  unfolding run
  run_all Q keep [] s a q = q
  run_all Q keep (e ∷ es) s (p, a) q = run_all Q keep es (step e s).0 a (keep e s p q)

  -- What the piece brings about, lasts.
  pub run_among :
      (Q R : S → Type 0)
      → ((e : E) (s : S) → P e → Q s → Q (step e s).0)
      → ((e : E) (s : S) → P e → R s → R (step e s).0)
      → (xs es : List E) (s : S) → IsAmong P xs es
      → ((t : S) → Q t → R (run step t xs))
      → Q s
      → R (run step s es)
  run_among Q R keep keep' xs es s a bring q =
      let before = run step s a.before in
      let there = bring before (run_all Q keep a.before s a.all_before q) in
      let last = run_all R keep' a.after (run step before xs) a.all_after there in
      subst R
        (sym (
          ap (run step s) a.whole
          ∙ History.run-append step s a.before (xs ++ a.after)
          ∙ History.run-append step before xs a.after))
        last

  -- What each such event keeps, a piece of them among others keeps.
  pub run_kept :
      (Q : S → Type 0)
      → ((e : E) (s : S) → P e → Q s → Q (step e s).0)
      → (xs es : List E) (s : S) → All P xs
      → IsAmong P xs es
      → Q s
      → Q (run step s es)
  run_kept Q keep xs es s p a q = run_among Q Q keep keep xs es s a (λ t. run_all Q keep xs t p) q

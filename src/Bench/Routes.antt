-- ===== src/Bench/Routes.antt =====
-- From the calls of a client to the requests that reach its server, for any routing of one call.
use wayring.Base.{◌≡◌, refl, sym, ap, ap₂, ◌∙◌, List, [], ◌∷◌, ◌++◌, append_assoc, append-nil}
use wayring.Bench.History.{calls}

module _ {C R : Type 0} (routed : C → List R) where
  unfoldable pub requests : List C → List R
  requests [] = []
  requests (c ∷ cs) = routed c ++ requests cs

  pub requests-append : (cs ds : List C) → requests (cs ++ ds) ≡ requests cs ++ requests ds
  unfolding requests
  requests-append [] ds = refl
  requests-append (c ∷ cs) ds =
      ap (λ rs. routed c ++ rs) (requests-append cs ds)
      ∙ sym (append_assoc (routed c) (requests cs) (requests ds))

  -- Handlers whose calls are no requests make none over a history either.
  pub requests-calls :
      {S E : Type 0} (step : E → S → S × List C)
      → ((e : E) (s : S) → requests (step e s).1 ≡ [])
      → (s : S) (es : List E) → requests (calls step s es) ≡ []
  unfolding requests calls
  requests-calls step quiet s [] = refl
  requests-calls step quiet s (e ∷ es) =
      requests-append (step e s).1 (calls step (step e s).0 es)
      ∙ ap₂ (λ l m. l ++ m) (quiet e s) (requests-calls step quiet (step e s).0 es)

  -- Calls that are no requests, before, between and behind others.
  pub requests_between :
      (a b cs d es : List C)
      → requests a ≡ []
      → requests b ≡ []
      → requests d ≡ []
      → requests ((((a ++ b) ++ cs) ++ d) ++ es) ≡ requests cs ++ requests es
  requests_between a b cs d es e f g = simp (requests-append, e, f, g, append-nil)

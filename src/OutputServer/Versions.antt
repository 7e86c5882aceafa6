-- ===== src/OutputServer/Versions.antt =====
-- src/bench/output-interop-server.c: the versions of the events that a client is sent.
use wayring.Base.{
  leb, Bool-cases, All, ℕ, ◌≤◌, min, ◌≡◌, refl, subst, inl, inr, false, Option, none, some, List,
  [], ◌∷◌, arith,
}
use wayring.Bench.{Effect, send}
use wayring.OutputServer.{
  OutputServer, Event, geometry, mode, scale, name, description, done, bound_version, described,
  binds, step,
}

-- The version of wl_output since which there is an event.
abbrev pub since : Event → ℕ
since (geometry r g make model transform) = 1
since (mode r flags width height refresh) = 1
since (scale r factor) = 2
since (done r) = 2
since (name r n) = 4
since (description r d) = 4

abbrev pub IsKnown : ℕ → Effect Event → Type 0
IsKnown version (send e) = since e ≤ version
IsKnown version _ = Unit

-- The last call, if there is one.
abbrev pub last_call : List (Effect Event) → Option (Effect Event)
last_call [] = none
last_call (e ∷ []) = some e
last_call (e ∷ f ∷ es) = last_call (f ∷ es)

pub record IsDescribed (resource version : ℕ) (es : List (Effect Event)) : Type 0 where
  pub known : All (IsKnown version) es
  pub ended : 2 ≤ version → last_call es ≡ some (send (done resource))

described-IsDescribed :
    (resource version : ℕ) → 1 ≤ version → IsDescribed resource version (described resource version)
described-IsDescribed resource version h = elim (Bool-cases (leb 2 version)) [
  | inr first ↦
      let unnamed : leb 4 version ≡ false = ground arith in
      rw (first, unnamed) (record { known = (h, (h, tt)); ended = λ l. absurd (ground arith) })
  | inl scaled ↦
      let two : 2 ≤ version = ground arith in
      elim (Bool-cases (leb 4 version)) [
        | inr unnamed ↦
            rw (scaled, unnamed) (record { known = (h, (h, (two, (two, tt)))); ended = λ l. refl })
        | inl named ↦
            let four : 4 ≤ version = ground arith in
            rw (scaled, named)
              (record { known = (h, (h, (two, (four, (four, (two, tt)))))); ended = λ l. refl })
      ]
]

-- A client that binds the output is sent only events that its version has, at most version 4, and from
-- version 2 on the last of them is the one that ends the description.
pub bind-IsDescribed :
    (version resource : ℕ) (s : OutputServer)
    → 1 ≤ version
    → IsDescribed resource (min version 4) (step (binds version (some resource)) s).1
unfolding step
bind-IsDescribed version resource s h =
    subst (λ v. IsDescribed resource v (described resource (bound_version version)))
      {x = bound_version version} {y = min version 4} (ground arith)
      (described-IsDescribed resource (bound_version version) (ground arith))

-- ===== src/SubsurfaceServer/Counts.antt =====
-- src/bench/subsurface-interop-server.c: the surfaces of a client, and what the verdict says of its
-- requests.
use wayring.Base.{
  ltb, ◌==◌, if◌then◌else◌, Bool-cases, ℕ, ◌+◌, ◌≤◌, ◌≡◌, refl, sym, inl, inr, Bool, true, false,
  not, Option, none, some, List, ◌∷◌, ◌++◌, arith,
}
use wayring.Bench.{is_null, refused, same, same_eq}
use wayring.Bench.History.{run, run_inv, ticked_by}
use wayring.Bench.Tallies.{tally, counter-run}
use wayring.SubsurfaceServer.{
  SubsurfaceServer, Request, gets_subsurface, destroys_subsurface, destroys_surface, commits,
  creates_surface, step, init, succeeded,
}

abbrev pub is_made : Request → Bool
is_made (creates_surface c) = not (is_null c)
is_made _ = false

abbrev pub is_destroy : Request → Bool
is_destroy (destroys_surface _) = true
is_destroy _ = false

abbrev pub is_commit : Request → Bool
is_commit commits = true
is_commit _ = false

step_counts :
    (r : Request) (s : SubsurfaceServer)
    → ((step r s).0.surfaces_created ≡ (if is_made r then 1 else 0) + s.surfaces_created)
      × ((step r s).0.surfaces_destroyed ≡ (if is_destroy r then 1 else 0) + s.surfaces_destroyed)
      × ((step r s).0.surface_commits ≡ (if is_commit r then 1 else 0) + s.surface_commits)
unfolding step
step_counts (destroys_subsurface r) s = ground arith
step_counts _ s = ground arith

-- The first surface is the parent, and the last of the others is the child.
pub record IsPaired (s : SubsurfaceServer) : Type 0 where
  pub parent_first : is_null s.parent ≡ (s.surfaces_created == 0)
  pub child_second : is_null s.child ≡ ltb s.surfaces_created 2
  pub subsurface_paired : s.subsurface_created ≡ true → 2 ≤ s.surfaces_created

child_some : (u : ℕ) (c : Option ℕ) → same (some u) c ≡ true → is_null c ≡ false
child_some u none e = cc
child_some u (some b) e = refl

step-IsPaired : (r : Request) (s : SubsurfaceServer) → IsPaired s → IsPaired (step r s).0
unfolding step
step-IsPaired (gets_subsurface u p c) s i = elim (Bool-cases (same (some u) s.child)) [
  | inr other ↦ rw (other, step) i
  | inl child ↦ ground (arith, child_some u s.child child)
]
step-IsPaired (destroys_subsurface r) s i = ground arith
step-IsPaired _ s i = ground arith

-- At the end of any history the parent and the child are there as soon as one and two surfaces were
-- made, and a subsurface only with both.
pub run-IsPaired : (rs : List Request) → IsPaired (run step init rs)
run-IsPaired rs = run_inv step IsPaired step-IsPaired init rs (ground arith)

-- A client that the server calls successful made two surfaces, destroyed two and committed three times,
-- no more and no less.
pub success_counts :
    (rs : List Request)
    → succeeded (run step init rs) ≡ true
    → (tally is_made rs ≡ 2) × ((tally is_destroy rs ≡ 2) × (tally is_commit rs ≡ 3))
unfolding succeeded
success_counts rs h = ground (
  arith,
  counter-run step (λ s. s.surfaces_created) is_made (λ r s. (step_counts r s).0) rs init,
  counter-run step (λ s. s.surfaces_destroyed) is_destroy (λ r s. (step_counts r s).1) rs init,
  counter-run step (λ s. s.surface_commits) is_commit (λ r s. (step_counts r s).2) rs init,
)

-- A request that the server refuses leaves its state as it was.
pub refused_keeps :
    (r : Request) (s : SubsurfaceServer) → refused (step r s).1 ≡ true → (step r s).0 ≡ s
unfolding step
refused_keeps (destroys_subsurface r) s h = ground arith
refused_keeps _ s h = ground arith

positions_by_pair :
    (r : Request) (s : SubsurfaceServer)
    → s.subsurface_created ≡ false
    → (step r s).0.subsurface_created ≡ true
    → (u : ℕ) × (p : ℕ) × (c : Option ℕ) × ((r ≡ gets_subsurface u p c)
        × ((s.child ≡ some u) × (s.parent ≡ some p)))
unfolding step
positions_by_pair (gets_subsurface u p c) s f t = (
  u,
  p,
  c,
  (
    refl,
    (sym (same_eq (some u) s.child (ground arith)), sym (same_eq (some p) s.parent (ground arith))),
  ),
)
positions_by_pair _ s f t = absurd (ground arith)

-- A client that the server calls successful asked for a subsurface of its child on its parent, when both
-- were there.
pub success_needs_pair :
    (rs : List Request)
    → succeeded (run step init rs) ≡ true
    → (before : List Request) × (after : List Request) × (u : ℕ) × (p : ℕ) × (c : Option ℕ) × ((rs
          ≡ before ++ (gets_subsurface u p c ∷ after))
        × (((run step init before).child ≡ some u) × ((run step init before).parent ≡ some p)))
unfolding succeeded
success_needs_pair rs h =
    let (before, r, after, e, f, t) =
      ticked_by step (λ s. s.subsurface_created) rs init refl (ground arith) in
    let (u, p, c, (is_pair, pair)) = positions_by_pair r (run step init before) f t in
    (before, after, u, p, c, (rw (← is_pair) e, pair))

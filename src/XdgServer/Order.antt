-- ===== src/XdgServer/Order.antt =====
-- src/bench/xdg-interop-server.c: the order in which a successful client destroys its objects.
use wayring.Base.{◌≡◌, refl, Bool, true, false, ◌&&◌, ◌||◌, none, some, List, ◌∷◌, ◌++◌, arith}
use wayring.Bench.History.{run, ticked_by}
use wayring.XdgServer.{
  XdgServer, Request, destroys_toplevel, destroys_xdg_surface, destroys_surface, destroys_wm_base,
  asks_feedback, binds_presentation, binds_wm_base, gets_toplevel, step, init, succeeded,
}

abbrev is_toplevel : Request → Bool
is_toplevel (destroys_toplevel _) = true
is_toplevel _ = false

abbrev is_xdg_surface : Request → Bool
is_xdg_surface (destroys_xdg_surface _) = true
is_xdg_surface _ = false

abbrev is_surface : Request → Bool
is_surface (destroys_surface _) = true
is_surface _ = false

abbrev is_wm_base : Request → Bool
is_wm_base (destroys_wm_base _) = true
is_wm_base _ = false

-- What a request ticks off, and what must have been ticked off before.
abbrev Ticks : Request → XdgServer → XdgServer → Type 0
Ticks r s t =
    (t.toplevel_destroyed ≡ is_toplevel r || s.toplevel_destroyed)
    × (t.xdg_surface_destroyed
        ≡ (is_xdg_surface r && s.toplevel_destroyed) || s.xdg_surface_destroyed)
    × (t.surface_destroyed ≡ (is_surface r && s.xdg_surface_destroyed) || s.surface_destroyed)
    × (t.wm_base_destroyed ≡ (is_wm_base r && s.surface_destroyed) || s.wm_base_destroyed)

step-Ticks : (r : Request) (s : XdgServer) → Ticks r s (step r s).0
unfolding step
step-Ticks (asks_feedback none) s = ground arith
step-Ticks (asks_feedback (some c)) s = ground arith
step-Ticks (binds_presentation none) s = ground arith
step-Ticks (binds_presentation (some c)) s = ground arith
step-Ticks (binds_wm_base none) s = ground arith
step-Ticks (binds_wm_base (some c)) s = ground arith
step-Ticks (gets_toplevel r none) s = ground arith
step-Ticks (gets_toplevel r (some c)) s = ground arith
step-Ticks _ s = ground arith

-- The last request of a history that ticks one flag, when it needs another.
module _ (tick needed : XdgServer → Bool) (test : Request → Bool)
    (ticks : (r : Request) (s : XdgServer)
      → tick (step r s).0 ≡ (test r && needed s) || tick s) where
  came_before :
      (rs : List Request)
      → tick init ≡ false
      → tick (run step init rs) ≡ true
      → (before : List Request) × (r : Request) × (after : List Request) × ((rs
            ≡ before ++ (r ∷ after))
          × ((test r ≡ true) × (needed (run step init before) ≡ true)))
  came_before rs f t =
      let (before, r, after, e, off, on) = ticked_by step tick rs init f t in
      (
        before,
        r,
        after,
        (
          e,
          (
            ground (arith, ticks r (run step init before)),
            ground (arith, ticks r (run step init before)),
          ),
        ),
      )

-- The four objects are destroyed in the order that their protocols ask for, with any other requests
-- between.
pub InOrder : List Request → Type 0
InOrder rs =
    (a : List Request) × (b : List Request) × (c : List Request) × (d : List Request) × (e : List
      Request)
    × (toplevel : Request) × (xdg_surface : Request) × (surface : Request) × (wm_base : Request)
    × ((rs ≡ (((a ++ (toplevel ∷ b)) ++ (xdg_surface ∷ c)) ++ (surface ∷ d)) ++ (wm_base ∷ e))
        × ((is_toplevel toplevel ≡ true)
            × ((is_xdg_surface xdg_surface ≡ true)
                × ((is_surface surface ≡ true) × (is_wm_base wm_base ≡ true)))))

joined :
    (rs p q o a b c d e : List Request) (t x u w : Request)
    → rs ≡ p ++ (w ∷ e)
    → p ≡ q ++ (u ∷ d)
    → q ≡ o ++ (x ∷ c)
    → o ≡ a ++ (t ∷ b)
    → rs ≡ (((a ++ (t ∷ b)) ++ (x ∷ c)) ++ (u ∷ d)) ++ (w ∷ e)
joined rs p q o a b c d e t x u w i j k l = cc

-- A client that the server calls successful destroyed its toplevel, then the xdg_surface, then the
-- surface, then the wm_base.
pub success_needs_order : (rs : List Request) → succeeded (run step init rs) ≡ true → InOrder rs
unfolding succeeded InOrder
success_needs_order rs h =
    let (before_w, w, e, (w_split, (is_w, no_surface))) =
      came_before (λ s. s.wm_base_destroyed) (λ s. s.surface_destroyed) is_wm_base
        (λ r s. (step-Ticks r s).3) rs refl (ground arith) in
    let (before_s, u, d, (u_split, (is_u, no_xdg_surface))) =
      came_before (λ s. s.surface_destroyed) (λ s. s.xdg_surface_destroyed) is_surface
        (λ r s. (step-Ticks r s).2) before_w refl no_surface in
    let (before_x, x, c, (x_split, (is_x, no_toplevel))) =
      came_before (λ s. s.xdg_surface_destroyed) (λ s. s.toplevel_destroyed) is_xdg_surface
        (λ r s. (step-Ticks r s).1) before_s refl no_xdg_surface in
    let (a, t, b, (t_split, (is_t, _))) =
      came_before (λ s. s.toplevel_destroyed) (λ s. true) is_toplevel
        (λ r s. ground (arith, (step-Ticks r s).0)) before_x refl no_toplevel in
    (
      a,
      b,
      c,
      d,
      e,
      t,
      x,
      u,
      w,
      (
        joined rs before_w before_s before_x a b c d e t x u w w_split u_split x_split t_split,
        (is_t, (is_x, (is_u, is_w))),
      ),
    )

-- ===== src/XdgServer/Tests.antt =====
-- src/bench/xdg-interop-server.c: a whole client, and the theorems at it.
use wayring.Base.{◌≡◌, refl, true, some, List, [], ◌∷◌}
use wayring.Bench.History.{run}
use wayring.XdgServer.{
  Request, asks_feedback, destroys_presentation, binds_presentation, commits, destroys_surface,
  creates_surface, binds_compositor, destroys_toplevel, gets_toplevel, acks_configure,
  destroys_xdg_surface, gets_xdg_surface, pongs, destroys_wm_base, binds_wm_base, leaves, step,
  init, succeeded,
}
use wayring.XdgServer.Order.{InOrder, success_needs_order}

abbrev client : List Request
client =
    binds_compositor (some 1)
    ∷ binds_wm_base (some 2)
    ∷ binds_presentation (some 3)
    ∷ pongs 41
    ∷ creates_surface (some 4)
    ∷ gets_xdg_surface (some 5)
    ∷ gets_toplevel 5 (some 6)
    ∷ asks_feedback (some 7)
    ∷ commits
    ∷ acks_configure 77
    ∷ asks_feedback (some 8)
    ∷ commits
    ∷ destroys_toplevel 6
    ∷ destroys_xdg_surface 5
    ∷ destroys_surface 4
    ∷ destroys_wm_base 2
    ∷ destroys_presentation 3
    ∷ leaves
    ∷ []

client_succeeds : succeeded (run step init client) ≡ true
unfolding succeeded run step
client_succeeds = refl

success_needs_order_example : InOrder client
success_needs_order_example = success_needs_order client client_succeeds

-- ===== src/ShellServer/Verdict.antt =====
-- src/bench/shell-interop-server.c: the verdict, read off the requests alone.
use wayring.Base.{◌==◌, ◌≡◌, Bool, true, false, not, ◌&&◌, ◌||◌, List, arith}
use wayring.Bench.{is_null}
use wayring.Bench.History.{run}
use wayring.Bench.Tallies.{any, flag-run}
use wayring.Bench.Texts.{streq}
use wayring.ShellServer.{
  ShellServer, Request, pongs, sets_toplevel, sets_title, sets_class, gets_shell_surface,
  destroys_surface, step, init, succeeded,
}

abbrev pub is_created : Request → Bool
is_created (gets_shell_surface c) = not (is_null c)
is_created _ = false

abbrev pub is_pong : Request → Bool
is_pong (pongs n) = n == 41
is_pong _ = false

abbrev pub is_title : Request → Bool
is_title (sets_title t) = streq t "wayring-shell"
is_title _ = false

abbrev pub is_class : Request → Bool
is_class (sets_class c) = streq c "wayring"
is_class _ = false

abbrev pub is_toplevel : Request → Bool
is_toplevel sets_toplevel = true
is_toplevel _ = false

abbrev pub is_destroy : Request → Bool
is_destroy (destroys_surface _) = true
is_destroy _ = false

-- What one request does to each flag.
step_flags :
    (r : Request) (s : ShellServer)
    → ((step r s).0.shell_surface_created ≡ is_created r || s.shell_surface_created)
      × ((step r s).0.pong ≡ is_pong r || s.pong)
      × ((step r s).0.title ≡ is_title r || s.title)
      × ((step r s).0.class_name ≡ is_class r || s.class_name)
      × ((step r s).0.toplevel ≡ is_toplevel r || s.toplevel)
      × ((step r s).0.surface_destroyed ≡ is_destroy r || s.surface_destroyed)
unfolding step
step_flags (pongs n) s = ground arith
step_flags _ s = ground arith

-- The server calls a client successful exactly when its requests, in any order and among any others,
-- have one of each kind that the server waits for.
pub succeeded_iff_any :
    (rs : List Request)
    → succeeded (run step init rs)
      ≡ any is_created rs
        && (any is_pong rs
            && (any is_title rs && (any is_class rs && (any is_toplevel rs && any is_destroy rs))))
unfolding succeeded
succeeded_iff_any rs = ground (
  arith,
  flag-run step (λ s. s.shell_surface_created) is_created (λ r s. (step_flags r s).0) rs init,
  flag-run step (λ s. s.pong) is_pong (λ r s. (step_flags r s).1) rs init,
  flag-run step (λ s. s.title) is_title (λ r s. (step_flags r s).2) rs init,
  flag-run step (λ s. s.class_name) is_class (λ r s. (step_flags r s).3) rs init,
  flag-run step (λ s. s.toplevel) is_toplevel (λ r s. (step_flags r s).4) rs init,
  flag-run step (λ s. s.surface_destroyed) is_destroy (λ r s. (step_flags r s).5) rs init,
)

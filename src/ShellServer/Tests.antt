-- ===== src/ShellServer/Tests.antt =====
-- src/bench/shell-interop-server.c: a whole client, and the theorems at it.
use wayring.Base.{◌≡◌, refl, true, some, List, [], ◌∷◌}
use wayring.Bench.History.{run}
use wayring.Bench.Tallies.{any}
use wayring.Bench.Texts.{streq}
use wayring.ShellServer.{
  Request, pongs, sets_toplevel, sets_title, sets_class, gets_shell_surface, creates_surface,
  destroys_surface, leaves, step, init, succeeded,
}
use wayring.ShellServer.Verdict.{succeeded_iff_any}

abbrev client : List Request
client =
    creates_surface (some 3)
    ∷ gets_shell_surface (some 4)
    ∷ pongs 41
    ∷ sets_class "wayring"
    ∷ sets_title "wayring-shell"
    ∷ sets_toplevel
    ∷ destroys_surface 3
    ∷ leaves
    ∷ []

succeeded_iff_any_example : succeeded (run step init client) ≡ true
unfolding any streq
succeeded_iff_any_example = succeeded_iff_any client

-- Another title.
untitled : succeeded (run step init (sets_title "shell" ∷ client)) ≡ true
unfolding succeeded run step streq
untitled = refl

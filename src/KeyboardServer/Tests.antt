-- ===== src/KeyboardServer/Tests.antt =====
-- src/bench/keyboard-interop-server.c: a whole client, and the theorems at it.
use wayring.Base.{◌≡◌, refl, true, some, List, [], ◌∷◌}
use wayring.Bench.Descriptors.{closes, count}
use wayring.Bench.History.{run, calls}
use wayring.KeyboardServer.{
  KeyboardServer, Made, Request, releases_keyboard, gets_keyboard, releases_seat, destroys_surface,
  creates_surface, leaves, step, init, succeeded,
}
use wayring.KeyboardServer.Keymap.{all_opened, opened, keymaps_closed}

abbrev made : Made
made = record { keyboard = some 4; keymap_fd = some 9; written = some 14; sought = true }

-- A keymap that could not be written whole.
abbrev short : Made
short = record { keyboard = some 5; keymap_fd = some 9; written = some 3; sought = true }

abbrev client : List Request
client =
    creates_surface (some 3)
    ∷ gets_keyboard short
    ∷ gets_keyboard made
    ∷ releases_keyboard 4
    ∷ destroys_surface 3
    ∷ releases_seat 2
    ∷ leaves
    ∷ []

client_succeeds : succeeded (run step init client) ≡ true
unfolding succeeded run step
client_succeeds = refl

keymaps_closed_example : closes 9 (calls step init client) ≡ 2
unfolding all_opened opened count step
keymaps_closed_example = keymaps_closed 9 client init

abbrev surfaced : KeyboardServer
surfaced = record init { surface = some 3 }

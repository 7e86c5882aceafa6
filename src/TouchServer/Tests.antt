-- ===== src/TouchServer/Tests.antt =====
-- src/bench/touch-interop-server.c: a whole client, and the theorem at it.
use wayring.Base.{◌≡◌, refl, true, none, some, List, [], ◌∷◌}
use wayring.Bench.History.{run, calls}
use wayring.Bench.Monitors.{watch}
use wayring.TouchServer.{
  Request, creates_surface, gets_touch, releases_touch, destroys_surface, releases_seat, leaves,
  step, init, succeeded,
}
use wayring.TouchServer.Streams.{see, touch_watched}

abbrev client : List Request
client =
    creates_surface (some 3)
    ∷ gets_touch (some 4)
    ∷ gets_touch none
    ∷ releases_touch 4
    ∷ destroys_surface 3
    ∷ gets_touch (some 5)
    ∷ releases_seat 2
    ∷ leaves
    ∷ []

client_succeeds : succeeded (run step init client) ≡ true
unfolding succeeded run step
client_succeeds = refl

touch_watched_example : watch see (calls step init client) [] ≡ some []
touch_watched_example = touch_watched client init

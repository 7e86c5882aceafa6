-- ===== src/PointerServer/Tests.antt =====
-- src/bench/pointer-interop-server.c: a whole client, and the theorem at it.
use wayring.Base.{◌≡◌, refl, true, none, some, List, [], ◌∷◌}
use wayring.Bench.History.{run, calls}
use wayring.Bench.Monitors.{watch}
use wayring.PointerServer.{
  Request, creates_surface, gets_pointer, releases_pointer, destroys_surface, releases_seat, leaves,
  step, init, succeeded,
}
use wayring.PointerServer.Streams.{see, pointer_watched}

abbrev client : List Request
client =
    creates_surface (some 3)
    ∷ gets_pointer (some 4)
    ∷ gets_pointer none
    ∷ releases_pointer 4
    ∷ destroys_surface 3
    ∷ gets_pointer (some 5)
    ∷ releases_seat 2
    ∷ leaves
    ∷ []

client_succeeds : succeeded (run step init client) ≡ true
unfolding succeeded run step
client_succeeds = refl

pointer_watched_example : watch see (calls step init client) none ≡ some none
pointer_watched_example = pointer_watched client init

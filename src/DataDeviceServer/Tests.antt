-- ===== src/DataDeviceServer/Tests.antt =====
-- src/bench/data-device-interop-server.c: a whole client, and the theorems at it.
use wayring.Base.{◌≡◌, refl, true, some, List, [], ◌∷◌, ◌++◌}
use wayring.Bench.Descriptors.{count, closes}
use wayring.Bench.History.{run, calls}
use wayring.Bench.Texts.{c_bytes, streq, memeq}
use wayring.DataDeviceServer.Run.{
  Request, accept, receive, destroy_offer, finish_offer, set_offer_actions, offer_type,
  destroy_source, set_source_actions, start_drag, set_selection, release_device, create_source,
  get_device, release_seat, destroy_surface, create_surface, step, init, succeeded, after_loop,
}
use wayring.DataDeviceServer.Causes.{success_needs_drag}
use wayring.DataDeviceServer.Pipes.{all_given, AreSpaced, given, all_closed}

abbrev client : List Request
client =
    create_source (some 3)
    ∷ get_device (some 4) (some 5)
    ∷ create_surface (some 6)
    ∷ create_surface (some 7)
    ∷ offer_type "text/plain"
    ∷ set_source_actions 3
    ∷ set_selection (some 3) 77 (some (20, 21))
    ∷ start_drag (some 3) (some 6) (some 7) 88
    ∷ accept 99 (some "text/plain")
    ∷ set_offer_actions 3 2
    ∷ receive "text/plain" 22 (some 1) (some 17)
    ∷ finish_offer
    ∷ destroy_offer 5
    ∷ destroy_source 3 (some (c_bytes "wayring-selection"))
    ∷ release_device 4
    ∷ destroy_surface 7
    ∷ destroy_surface 6
    ∷ release_seat 2
    ∷ []

client_succeeds : succeeded (run step init client) ≡ true
unfolding succeeded run step streq memeq
client_succeeds = refl

success_needs_drag_example :
    (before : List Request) × (after : List Request) × (let s = run step init before in
      (client ≡ before ++ (start_drag s.source s.origin s.icon 88 ∷ after))
      × (s.source_actions ≡ true))
success_needs_drag_example = success_needs_drag client client_succeeds

client_spaced : AreSpaced client init
unfolding AreSpaced step streq
client_spaced = (
  refl,
  (
    refl,
    (
      refl,
      (
        refl,
        (
          refl,
          (
            refl,
            (
              refl,
              (
                refl,
                (refl, (refl, (refl, (refl, (refl, (refl, (refl, (refl, (refl, (refl, tt)))))))))),
              ),
            ),
          ),
        ),
      ),
    ),
  ),
)

-- The pipe of the selection, at the end of the client.
all_closed_example : closes 20 (calls step init client ++ after_loop (run step init client)) ≡ 1
unfolding all_given given count step streq
all_closed_example = all_closed 20 client client_spaced

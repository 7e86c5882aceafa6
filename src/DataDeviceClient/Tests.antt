-- ===== src/DataDeviceClient/Tests.antt =====
-- src/bench/data-device-interop-client.c: whole runs, and the theorems at them.
use wayring.Base.{◌≡◌, refl, true, false, some, List, [], ◌∷◌}
use wayring.Bench.{minus, fixed}
use wayring.Bench.Texts.{c_bytes, streq}
use wayring.Bench.History.{run}
use wayring.DataDeviceClient.{
  offer_destroy, source_destroy, device_release, surface_destroy, manager_destroy, seat_release,
  compositor_destroy, Event, offers_type, offers_source_actions, offers_action, targets, sends,
  drop_performs, finishes, acts, offers, enters, leaves, moves, drops, global, step,
}
use wayring.DataDeviceClient.Main.{
  World, before_cleanup, after_globals, after_surfaces, read_offer, data_device_client_fd,
}
use wayring.DataDeviceClient.Cleanup.{destroyed, destroyed-run}

abbrev globals : List Event
globals =
    global "wl_seat" (some 1)
    ∷ global "wl_data_device_manager" (some 2)
    ∷ global "wl_compositor" (some 3)
    ∷ global "wl_shm" (some 4)
    ∷ []

abbrev drag : List Event
drag =
    offers (some 8)
    ∷ offers_type "text/plain"
    ∷ offers_source_actions 3
    ∷ offers_action 2
    ∷ enters 99 (some 6) 384 (minus (fixed 2)) (some 8)
    ∷ moves 300 (fixed 2) (fixed 3)
    ∷ drops (some (20, 21))
    ∷ leaves
    ∷ sends "text/plain" 30 (some 1) (some 21)
    ∷ targets (some "text/plain")
    ∷ acts 2
    ∷ drop_performs
    ∷ finishes
    ∷ []

abbrev world : World
world = record {
  connected = true;
  first = (globals, true);
  source = some 4;
  device = some 5;
  origin = some 6;
  icon = some 7;
  second = (drag, true);
  third = ([], true);
  arrived = some (c_bytes "wayring-drag-offer");
}

-- The server of a client whose last roundtrip fails.
abbrev world_cut : World
world_cut = record world { third = ([], false) }

destroyed-run_example :
    destroyed (data_device_client_fd world_cut).1
    ≡ offer_destroy 8
      ∷ source_destroy 4
      ∷ device_release 5
      ∷ surface_destroy 7
      ∷ surface_destroy 6
      ∷ manager_destroy 2
      ∷ seat_release 1
      ∷ compositor_destroy 3
      ∷ []
unfolding before_cleanup after_globals after_surfaces read_offer run step streq
destroyed-run_example = destroyed-run world_cut refl

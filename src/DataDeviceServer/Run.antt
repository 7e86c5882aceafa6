-- ===== src/DataDeviceServer/Run.antt =====
-- src/bench/data-device-interop-server.c: the interface tables and `data_device_server_fd`.
use wayring.Base.{◌==◌, ℕ, Bool, false, ◌&&◌, Option, none, List}
use Prim.Native.String.{String}
use wayring.Bench.{Effect}
use wayring.Bench.Launch.{Setup, Outcome, launch}
use wayring.Bench.History
use wayring.DataDeviceServer.{
  DataDeviceServer, Event, Handler, offer_accept, offer_receive, offer_destroy, offer_finish,
  offer_set_actions, source_offer, source_destroy, source_set_actions, device_start_drag,
  device_set_selection, device_release, manager_create_source, manager_get_device, bind_manager,
  seat_get_pointer, seat_get_keyboard, seat_get_touch, seat_release, bind_seat, surface_destroy,
  compositor_create_surface, compositor_create_region, bind_compositor, handle_client_destroy,
  close_held,
}

-- The requests, with the arguments of their handlers.
pub data Request : Type 0 where
  accept : ℕ → Option String → Request
  receive : String → ℕ → Option ℕ → Option ℕ → Request
  destroy_offer : ℕ → Request
  finish_offer : Request
  set_offer_actions : ℕ → ℕ → Request
  offer_type : String → Request
  destroy_source : ℕ → Option (List ℕ) → Request
  set_source_actions : ℕ → Request
  start_drag : Option ℕ → Option ℕ → Option ℕ → ℕ → Request
  set_selection : Option ℕ → ℕ → Option (ℕ × ℕ) → Request
  release_device : ℕ → Request
  create_source : Option ℕ → Request
  get_device : Option ℕ → Option ℕ → Request
  get_pointer get_keyboard get_touch : Request
  release_seat : ℕ → Request
  destroy_surface : ℕ → Request
  create_surface : Option ℕ → Request
  create_region : Request
  bound_manager bound_seat bound_compositor : Option ℕ → Request
  leaves : Request

unfoldable pub step : Request → Handler
unfolding offer_accept offer_receive offer_destroy offer_finish offer_set_actions source_offer
    source_destroy source_set_actions device_start_drag device_set_selection device_release
    manager_create_source manager_get_device bind_manager seat_get_pointer seat_get_keyboard
    seat_get_touch seat_release bind_seat surface_destroy compositor_create_surface
    compositor_create_region bind_compositor handle_client_destroy
step (accept serial mime) = offer_accept serial mime
step (receive mime fd flags written) = offer_receive mime fd flags written
step (destroy_offer r) = offer_destroy r
step finish_offer = offer_finish
step (set_offer_actions a p) = offer_set_actions a p
step (offer_type mime) = source_offer mime
step (destroy_source r arrived) = source_destroy r arrived
step (set_source_actions a) = source_set_actions a
step (start_drag src org icn serial) = device_start_drag src org icn serial
step (set_selection src serial pipe) = device_set_selection src serial pipe
step (release_device r) = device_release r
step (create_source c) = manager_create_source c
step (get_device d o) = manager_get_device d o
step get_pointer = seat_get_pointer
step get_keyboard = seat_get_keyboard
step get_touch = seat_get_touch
step (release_seat r) = seat_release r
step (destroy_surface r) = surface_destroy r
step (create_surface c) = compositor_create_surface c
step create_region = compositor_create_region
step (bound_manager c) = bind_manager c
step (bound_seat c) = bind_seat c
step (bound_compositor c) = bind_compositor c
step leaves = handle_client_destroy

-- `struct data_device_server_state state = {.source_read_fd = -1};`
abbrev pub init : DataDeviceServer
init = record {
  source = none;
  origin = none;
  icon = none;
  device = none;
  offer = none;
  source_read_fd = none;
  source_created = false;
  device_created = false;
  source_offered = false;
  selection_set = false;
  source_sent = false;
  offer_received = false;
  offer_destroyed = false;
  source_destroyed = false;
  device_released = false;
  seat_released = false;
  source_actions = false;
  drag_started = false;
  drag_events = false;
  surfaces_destroyed = 0;
  offer_accepted = false;
  offer_actions = false;
  offer_finished = false;
  destination_events = false;
}

-- The verdict.
unfoldable pub succeeded : DataDeviceServer → Bool
succeeded s =
    (s.source_created
      && (s.device_created
          && (s.source_offered
              && (s.selection_set
                  && (s.source_sent
                      && (s.offer_received
                          && (s.offer_destroyed && (s.source_destroyed && s.device_released))))))))
    && (s.seat_released
        && (s.source_actions
            && (s.drag_started
                && (s.drag_events
                    && ((s.surfaces_destroyed == 2)
                        && (s.offer_accepted
                            && (s.offer_actions && (s.offer_finished && s.destination_events))))))))

-- What is closed after the event loop.
unfoldable pub after_loop : DataDeviceServer → List (Effect Event)
after_loop s = close_held s.source_read_fd

unfoldable pub data_device_server_fd : Setup → List Request → Outcome
data_device_server_fd env rs = launch env (succeeded (History.run step init rs))

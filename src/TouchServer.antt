-- ===== src/TouchServer.antt =====
-- src/bench/touch-interop-server.c: the peer of the touch check.
pub mod Streams
mod Tests
use wayring.Base.{if◌then◌else◌, ℕ, Bool, true, false, ◌&&◌, Option, none, some, List, [], ◌∷◌}
use Prim.Native.String.{String}
use wayring.Bench.{
  Effect, send, post_implementation_error, post_no_memory, terminate, destroy_resource, Step,
  is_null, minus, fixed, reject, make,
}
use wayring.Bench.History
use wayring.Bench.Launch.{Setup, Outcome, launch}

-- `struct touch_server_state`, without libwayland's own handles.
pub record TouchServer : Type 0 where
  pub surface : Option ℕ
  pub touch_released : Bool
  pub surface_destroyed : Bool
  pub seat_released : Bool

-- The events that it sends, each with the resource that sends it.
pub data Event : Type 0 where
  down : ℕ → ℕ → ℕ → ℕ → ℕ → ℕ → ℕ → Event
  motion : ℕ → ℕ → ℕ → ℕ → ℕ → Event
  shape : ℕ → ℕ → ℕ → ℕ → Event
  orientation : ℕ → ℕ → ℕ → Event
  up : ℕ → ℕ → ℕ → ℕ → Event
  frame cancel : ℕ → Event
  capabilities : Option ℕ → ℕ → Event
  name : Option ℕ → String → Event

abbrev pub Handler : Type 0
Handler = TouchServer → Step TouchServer Event

touch_release : ℕ → Handler
touch_release resource s = (record s { touch_released = true }, destroy_resource resource ∷ [])

-- What a new touch device sends: a touch of the point 7, which ends, and one of the point 8, which is
-- cancelled.
abbrev pub stream : ℕ → ℕ → List (Effect Event)
stream touch surface =
    send (down touch 51 200 surface 7 384 (minus (fixed 2)))
    ∷ send (motion touch 201 7 (fixed 3) (fixed 4))
    ∷ send (shape touch 7 (fixed 5) (fixed 2))
    ∷ send (orientation touch 7 (minus (fixed 45)))
    ∷ send (frame touch)
    ∷ send (up touch 52 202 7)
    ∷ send (frame touch)
    ∷ send (down touch 53 203 surface 8 0 0)
    ∷ send (cancel touch)
    ∷ []

-- The answer, once the surface is there.
abbrev pub give_touch : ℕ → Option ℕ → List (Effect Event)
give_touch surface none = post_no_memory ∷ []
give_touch surface (some touch) = stream touch surface

abbrev pub on_surface : Option ℕ → Option ℕ → List (Effect Event)
on_surface none created = post_implementation_error ∷ []
on_surface (some surface) created = give_touch surface created

seat_get_touch : Option ℕ → Handler
seat_get_touch created s = (s, on_surface s.surface created)

seat_get_pointer : Handler
seat_get_pointer s = reject s

seat_get_keyboard : Handler
seat_get_keyboard s = reject s

seat_release : ℕ → Handler
seat_release resource s = (record s { seat_released = true }, destroy_resource resource ∷ [])

-- WL_SEAT_CAPABILITY_TOUCH is 4.
bind_seat : Option ℕ → Handler
bind_seat created s = (
  s,
  if is_null created
      then post_no_memory ∷ []
      else send (capabilities created 4) ∷ send (name created "wayring-seat") ∷ [],
)

surface_destroy : ℕ → Handler
surface_destroy resource s =
    (record s { surface_destroyed = true; surface = none }, destroy_resource resource ∷ [])

compositor_create_surface : Option ℕ → Handler
compositor_create_surface created s =
    if is_null created then (s, post_no_memory ∷ []) else (record s { surface = created }, [])

compositor_create_region : Handler
compositor_create_region s = reject s

bind_compositor : Option ℕ → Handler
bind_compositor created s = make created s

handle_client_destroy : Handler
handle_client_destroy s = (s, terminate ∷ [])

-- The requests that the interface tables route to the handlers.
pub data Request : Type 0 where
  releases_touch : ℕ → Request
  gets_touch : Option ℕ → Request
  gets_pointer gets_keyboard : Request
  releases_seat : ℕ → Request
  binds_seat : Option ℕ → Request
  destroys_surface : ℕ → Request
  creates_surface : Option ℕ → Request
  creates_region : Request
  binds_compositor : Option ℕ → Request
  leaves : Request

unfoldable pub step : Request → Handler
unfolding touch_release seat_get_touch seat_get_pointer seat_get_keyboard seat_release bind_seat
    surface_destroy compositor_create_surface compositor_create_region bind_compositor
    handle_client_destroy
step (releases_touch r) = touch_release r
step (gets_touch c) = seat_get_touch c
step gets_pointer = seat_get_pointer
step gets_keyboard = seat_get_keyboard
step (releases_seat r) = seat_release r
step (binds_seat c) = bind_seat c
step (destroys_surface r) = surface_destroy r
step (creates_surface c) = compositor_create_surface c
step creates_region = compositor_create_region
step (binds_compositor c) = bind_compositor c
step leaves = handle_client_destroy

-- `struct touch_server_state state = {0};`
abbrev pub init : TouchServer
init = record {
  surface = none;
  touch_released = false;
  surface_destroyed = false;
  seat_released = false;
}

-- The verdict after the event loop.
unfoldable pub succeeded : TouchServer → Bool
succeeded s = s.touch_released && (s.surface_destroyed && s.seat_released)

unfoldable pub touch_server_fd : Setup → List Request → Outcome
touch_server_fd env rs = launch env (succeeded (History.run step init rs))

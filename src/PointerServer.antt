-- ===== src/PointerServer.antt =====
-- src/bench/pointer-interop-server.c: the peer of the pointer check.
pub mod Streams
mod Tests
use wayring.Base.{if◌then◌else◌, ℕ, Bool, true, false, ◌&&◌, Option, none, some, List, [], ◌∷◌}
use Prim.Native.String.{String}
use wayring.Bench.{
  Effect, send, post_implementation_error, post_no_memory, terminate, destroy_resource, Step,
  is_null, minus, fixed, reject, make,
}
use wayring.Bench.History
use wayring.Bench.Launch.{Setup, Outcome, launch}

-- `struct pointer_server_state`, without libwayland's own handles.
pub record PointerServer : Type 0 where
  pub surface : Option ℕ
  pub pointer_released : Bool
  pub surface_destroyed : Bool
  pub seat_released : Bool

-- The events that it sends, each with the resource that sends it.
pub data Event : Type 0 where
  enter : ℕ → ℕ → ℕ → ℕ → ℕ → Event
  motion : ℕ → ℕ → ℕ → ℕ → Event
  button : ℕ → ℕ → ℕ → ℕ → ℕ → Event
  axis_source : ℕ → ℕ → Event
  axis : ℕ → ℕ → ℕ → ℕ → Event
  axis_discrete axis_value120 axis_stop : ℕ → ℕ → ℕ → Event
  frame : ℕ → Event
  capabilities : Option ℕ → ℕ → Event
  name : Option ℕ → String → Event

abbrev pub Handler : Type 0
Handler = PointerServer → Step PointerServer Event

pointer_set_cursor : Handler
pointer_set_cursor s = reject s

pointer_release : ℕ → Handler
pointer_release resource s = (record s { pointer_released = true }, destroy_resource resource ∷ [])

-- What a new pointer sends. WL_POINTER_BUTTON_STATE_PRESSED is 1, WL_POINTER_AXIS_SOURCE_WHEEL and
-- WL_POINTER_AXIS_VERTICAL_SCROLL are 0.
abbrev pub stream : ℕ → ℕ → List (Effect Event)
stream pointer surface =
    send (enter pointer 41 surface 896 (minus 576))
    ∷ send (motion pointer 100 (fixed 4) (fixed 5))
    ∷ send (button pointer 42 101 272 1)
    ∷ send (axis_source pointer 0)
    ∷ send (axis pointer 102 0 (minus (fixed 1)))
    ∷ send (axis_discrete pointer 0 (minus 1))
    ∷ send (axis_value120 pointer 0 (minus 120))
    ∷ send (axis_stop pointer 103 0)
    ∷ send (frame pointer)
    ∷ []

-- The answer, once the surface is there.
abbrev pub give_pointer : ℕ → Option ℕ → List (Effect Event)
give_pointer surface none = post_no_memory ∷ []
give_pointer surface (some pointer) = stream pointer surface

abbrev pub on_surface : Option ℕ → Option ℕ → List (Effect Event)
on_surface none created = post_implementation_error ∷ []
on_surface (some surface) created = give_pointer surface created

seat_get_pointer : Option ℕ → Handler
seat_get_pointer created s = (s, on_surface s.surface created)

seat_get_keyboard : Handler
seat_get_keyboard s = reject s

seat_get_touch : Handler
seat_get_touch s = reject s

seat_release : ℕ → Handler
seat_release resource s = (record s { seat_released = true }, destroy_resource resource ∷ [])

-- WL_SEAT_CAPABILITY_POINTER is 1.
bind_seat : Option ℕ → Handler
bind_seat created s = (
  s,
  if is_null created
      then post_no_memory ∷ []
      else send (capabilities created 1) ∷ send (name created "wayring-seat") ∷ [],
)

surface_destroy : ℕ → Handler
surface_destroy resource s =
    (record s { surface_destroyed = true; surface = none }, destroy_resource resource ∷ [])

compositor_create_surface : Option ℕ → Handler
compositor_create_surface created s =
    if is_null created then (s, post_no_memory ∷ []) else (record s { surface = created }, [])

compositor_create_region : Handler
compositor_create_region s = reject s

bind_compositor : Option ℕ → Handler
bind_compositor created s = make created s

handle_client_destroy : Handler
handle_client_destroy s = (s, terminate ∷ [])

-- The requests that the interface tables route to the handlers.
pub data Request : Type 0 where
  releases_pointer : ℕ → Request
  gets_pointer : Option ℕ → Request
  gets_keyboard gets_touch : Request
  releases_seat : ℕ → Request
  binds_seat : Option ℕ → Request
  destroys_surface : ℕ → Request
  creates_surface : Option ℕ → Request
  creates_region : Request
  binds_compositor : Option ℕ → Request
  sets_cursor : Request
  leaves : Request

unfoldable pub step : Request → Handler
unfolding pointer_set_cursor pointer_release seat_get_pointer seat_get_keyboard seat_get_touch
    seat_release bind_seat surface_destroy compositor_create_surface compositor_create_region
    bind_compositor handle_client_destroy
step (releases_pointer r) = pointer_release r
step (gets_pointer c) = seat_get_pointer c
step gets_keyboard = seat_get_keyboard
step gets_touch = seat_get_touch
step (releases_seat r) = seat_release r
step (binds_seat c) = bind_seat c
step (destroys_surface r) = surface_destroy r
step (creates_surface c) = compositor_create_surface c
step creates_region = compositor_create_region
step (binds_compositor c) = bind_compositor c
step sets_cursor = pointer_set_cursor
step leaves = handle_client_destroy

-- `struct pointer_server_state state = {0};`
abbrev pub init : PointerServer
init = record {
  surface = none;
  pointer_released = false;
  surface_destroyed = false;
  seat_released = false;
}

-- The verdict after the event loop.
unfoldable pub succeeded : PointerServer → Bool
succeeded s = s.pointer_released && (s.surface_destroyed && s.seat_released)

unfoldable pub pointer_server_fd : Setup → List Request → Outcome
pointer_server_fd env rs = launch env (succeeded (History.run step init rs))

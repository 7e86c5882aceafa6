-- ===== src/KeyboardServer.antt =====
-- src/bench/keyboard-interop-server.c: the peer of the keyboard check, which passes a keymap in a
-- memory file.
pub mod Keymap
mod Tests
use wayring.Base.{
  if◌then◌else◌, ℕ, Bool, true, false, not, ◌&&◌, ◌||◌, Option, none, some, List, [], ◌∷◌,
}
use Prim.Native.String.{String}
use wayring.Bench.{
  Effect, send, post_implementation_error, post_no_memory, terminate, destroy_resource, close_fd,
  Step, is_null, reject, make,
}
use wayring.Bench.History
use wayring.Bench.Launch.{Setup, Outcome, launch}
use wayring.Bench.Texts.{is_written}

-- `struct keyboard_server_state`, without libwayland's own handles.
pub record KeyboardServer : Type 0 where
  pub surface : Option ℕ
  pub keyboard_released : Bool
  pub surface_destroyed : Bool
  pub seat_released : Bool

-- The events that it sends, each with the resource that sends it.
pub data Event : Type 0 where
  repeat_info : ℕ → ℕ → ℕ → Event
  keymap : ℕ → ℕ → ℕ → ℕ → Event
  enter : ℕ → ℕ → ℕ → List ℕ → Event
  modifiers : ℕ → List ℕ → Event
  key : ℕ → ℕ → ℕ → ℕ → ℕ → Event
  leave : ℕ → ℕ → ℕ → Event
  capabilities : Option ℕ → ℕ → Event
  name : Option ℕ → String → Event

abbrev pub Handler : Type 0
Handler = KeyboardServer → Step KeyboardServer Event

keyboard_release : ℕ → Handler
keyboard_release resource s =
    (record s { keyboard_released = true }, destroy_resource resource ∷ [])

seat_get_pointer : Handler
seat_get_pointer s = reject s

-- What the calls of `seat_get_keyboard` return: wl_resource_create, memfd_create, write, and whether
-- lseek succeeds.
pub record Made : Type 0 where
  pub keyboard : Option ℕ
  pub keymap_fd : Option ℕ
  pub written : Option ℕ
  pub sought : Bool

-- WL_KEYBOARD_KEYMAP_FORMAT_XKB_V1 and WL_KEYBOARD_KEY_STATE_PRESSED are 1, and `sizeof(keymap_text)`
-- is 14.
abbrev pub typed : ℕ → ℕ → ℕ → List (Effect Event)
typed keyboard surface fd =
    send (repeat_info keyboard 25 600)
    ∷ send (keymap keyboard 1 fd 14)
    ∷ close_fd fd
    ∷ send (enter keyboard 41 surface (30 ∷ 31 ∷ []))
    ∷ send (modifiers keyboard (42 ∷ 1 ∷ 2 ∷ 4 ∷ 3 ∷ []))
    ∷ send (key keyboard 43 100 30 1)
    ∷ send (leave keyboard 44 surface)
    ∷ []

-- The keymap, once the keyboard is there.
abbrev pub give_keymap : ℕ → ℕ → Option ℕ → Made → List (Effect Event)
give_keymap keyboard surface none made = post_no_memory ∷ []
give_keymap keyboard surface (some fd) made =
    if not (is_written made.written "xkb_keymap {}") || not made.sought
    then close_fd fd ∷ post_no_memory ∷ []
    else typed keyboard surface fd

abbrev pub give_keyboard : ℕ → Option ℕ → Made → List (Effect Event)
give_keyboard surface none made = post_no_memory ∷ []
give_keyboard surface (some keyboard) made = give_keymap keyboard surface made.keymap_fd made

abbrev pub on_surface : Option ℕ → Made → List (Effect Event)
on_surface none made = post_implementation_error ∷ []
on_surface (some surface) made = give_keyboard surface made.keyboard made

seat_get_keyboard : Made → Handler
seat_get_keyboard made s = (s, on_surface s.surface made)

seat_get_touch : Handler
seat_get_touch s = reject s

seat_release : ℕ → Handler
seat_release resource s = (record s { seat_released = true }, destroy_resource resource ∷ [])

-- WL_SEAT_CAPABILITY_KEYBOARD is 2.
bind_seat : Option ℕ → Handler
bind_seat created s = (
  s,
  if is_null created
      then post_no_memory ∷ []
      else send (capabilities created 2) ∷ send (name created "wayring-seat") ∷ [],
)

surface_destroy : ℕ → Handler
surface_destroy resource s =
    (record s { surface_destroyed = true; surface = none }, destroy_resource resource ∷ [])

compositor_create_surface : Option ℕ → Handler
compositor_create_surface created s =
    if is_null created then (s, post_no_memory ∷ []) else (record s { surface = created }, [])

compositor_create_region : Handler
compositor_create_region s = reject s

bind_compositor : Option ℕ → Handler
bind_compositor created s = make created s

handle_client_destroy : Handler
handle_client_destroy s = (s, terminate ∷ [])

-- The requests that the interface tables route to the handlers.
pub data Request : Type 0 where
  releases_keyboard : ℕ → Request
  gets_pointer gets_touch : Request
  gets_keyboard : Made → Request
  releases_seat : ℕ → Request
  binds_seat : Option ℕ → Request
  destroys_surface : ℕ → Request
  creates_surface : Option ℕ → Request
  creates_region : Request
  binds_compositor : Option ℕ → Request
  leaves : Request

unfoldable pub step : Request → Handler
unfolding keyboard_release seat_get_pointer seat_get_keyboard seat_get_touch seat_release bind_seat
    surface_destroy compositor_create_surface compositor_create_region bind_compositor
    handle_client_destroy
step (releases_keyboard r) = keyboard_release r
step gets_pointer = seat_get_pointer
step gets_touch = seat_get_touch
step (gets_keyboard made) = seat_get_keyboard made
step (releases_seat r) = seat_release r
step (binds_seat c) = bind_seat c
step (destroys_surface r) = surface_destroy r
step (creates_surface c) = compositor_create_surface c
step creates_region = compositor_create_region
step (binds_compositor c) = bind_compositor c
step leaves = handle_client_destroy

-- `struct keyboard_server_state state = {0};`
abbrev pub init : KeyboardServer
init = record {
  surface = none;
  keyboard_released = false;
  surface_destroyed = false;
  seat_released = false;
}

-- The verdict after the event loop.
unfoldable pub succeeded : KeyboardServer → Bool
succeeded s = s.keyboard_released && (s.surface_destroyed && s.seat_released)

unfoldable pub keyboard_server_fd : Setup → List Request → Outcome
keyboard_server_fd env rs = launch env (succeeded (History.run step init rs))

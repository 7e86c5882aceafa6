-- ===== src/KeyboardClient.antt =====
-- src/bench/keyboard-interop-client.c: the client of the keyboard check.
pub mod Session
mod Tests
use wayring.Base.{
  ◌==◌, if◌then◌else◌, ℕ, ◌%◌, Bool, true, false, not, ◌&&◌, Option, none, some, List, [], ◌∷◌,
}
use Prim.Native.String.{String}
use wayring.Bench.{is_null}
use wayring.Bench.Seats.{Call, close, Check, World, seat_client_fd}
use wayring.Bench.Texts.{streq, is_read, memeq}

-- `struct keyboard_client_state`
pub record KeyboardClient : Type 0 where
  pub compositor : Option ℕ
  pub seat : Option ℕ
  pub capabilities : Bool
  pub name : Bool
  pub keymap : Bool
  pub enter : Bool
  pub modifiers : Bool
  pub key : Bool
  pub repeat_info : Bool
  pub leave : Bool

-- What a handler asks of libwayland and the kernel are its calls, but for wl_registry_bind, read and fcntl.
abbrev pub Handler : Type 0
Handler = KeyboardClient → KeyboardClient × List Call

-- WL_SEAT_CAPABILITY_KEYBOARD is 2.
seat_capabilities : ℕ → Handler
seat_capabilities capabilities c =
    (if capabilities == 2 then record c { capabilities = true } else c, [])

seat_name : String → Handler
seat_name name c = (if streq name "wayring-seat" then record c { name = true } else c, [])

-- `(fcntl(fd, F_GETFD) & FD_CLOEXEC) != 0`: where fcntl fails it is -1, which has the bit.
abbrev pub has_cloexec : Option ℕ → Bool
has_cloexec none = true
has_cloexec (some flags) = flags % 2 == 1

-- `bytes` is what read returned, `flags` what fcntl did. WL_KEYBOARD_KEYMAP_FORMAT_XKB_V1 is 1, and
-- `sizeof(expected_keymap)` is 14.
keyboard_keymap : ℕ → ℕ → ℕ → Option (List ℕ) → Option ℕ → Handler
keyboard_keymap format fd size bytes flags c = (
  if (format == 1) && ((size == 14) && (is_read bytes "xkb_keymap {}" && has_cloexec flags))
      then record c { keymap = true }
      else c,
  close fd ∷ [],
)

-- `keys` are the words of the array.
keyboard_enter : ℕ → Option ℕ → List ℕ → Handler
keyboard_enter serial surface keys c = (
  if c.keymap && ((serial == 41) && (not (is_null surface) && memeq keys (30 ∷ 31 ∷ [])))
      then record c { enter = true }
      else c,
  [],
)

keyboard_leave : ℕ → Option ℕ → Handler
keyboard_leave serial surface c = (
  if c.key && ((serial == 44) && not (is_null surface)) then record c { leave = true } else c,
  [],
)

-- WL_KEYBOARD_KEY_STATE_PRESSED is 1.
keyboard_key : ℕ → ℕ → ℕ → ℕ → Handler
keyboard_key serial time key state c = (
  if c.repeat_info
        && (c.modifiers && ((serial == 43) && ((time == 100) && ((key == 30) && (state == 1)))))
      then record c { key = true }
      else c,
  [],
)

keyboard_modifiers : ℕ → ℕ → ℕ → ℕ → ℕ → Handler
keyboard_modifiers serial depressed latched locked group c = (
  if c.enter
        && ((serial == 42)
            && ((depressed == 1) && ((latched == 2) && ((locked == 4) && (group == 3)))))
      then record c { modifiers = true }
      else c,
  [],
)

keyboard_repeat_info : ℕ → ℕ → Handler
keyboard_repeat_info rate delay c =
    (if (rate == 25) && (delay == 600) then record c { repeat_info = true } else c, [])

-- `bound` is what wl_registry_bind returned.
registry_global : String → Option ℕ → Handler
registry_global interface bound c = (
  if streq interface "wl_compositor"
      then record c { compositor = bound }
      else if streq interface "wl_seat"
      then record c { seat = bound }
      else c,
  [],
)

registry_global_remove : Handler
registry_global_remove c = (c, [])

-- The events that the listeners route to the handlers.
pub data Event : Type 0 where
  has_capabilities : ℕ → Event
  is_named : String → Event
  brings_keymap : ℕ → ℕ → ℕ → Option (List ℕ) → Option ℕ → Event
  enters : ℕ → Option ℕ → List ℕ → Event
  leaves : ℕ → Option ℕ → Event
  presses : ℕ → ℕ → ℕ → ℕ → Event
  modifies : ℕ → ℕ → ℕ → ℕ → ℕ → Event
  repeats : ℕ → ℕ → Event
  global : String → Option ℕ → Event
  global_remove : Event

unfoldable pub step : Event → Handler
unfolding seat_capabilities seat_name keyboard_keymap keyboard_enter keyboard_leave keyboard_key
    keyboard_modifiers keyboard_repeat_info registry_global registry_global_remove
step (has_capabilities n) = seat_capabilities n
step (is_named n) = seat_name n
step (brings_keymap format fd size bytes flags) = keyboard_keymap format fd size bytes flags
step (enters serial surface keys) = keyboard_enter serial surface keys
step (leaves serial surface) = keyboard_leave serial surface
step (presses serial time k state) = keyboard_key serial time k state
step (modifies serial d l k g) = keyboard_modifiers serial d l k g
step (repeats rate delay) = keyboard_repeat_info rate delay
step (global interface bound) = registry_global interface bound
step global_remove = registry_global_remove

-- `struct keyboard_client_state state = {0};`
abbrev pub init : KeyboardClient
init = record {
  compositor = none;
  seat = none;
  capabilities = false;
  name = false;
  keymap = false;
  enter = false;
  modifiers = false;
  key = false;
  repeat_info = false;
  leave = false;
}

-- The test behind the third roundtrip.
abbrev pub passes : KeyboardClient → Bool
passes c = c.keymap && (c.enter && (c.modifiers && (c.key && (c.repeat_info && c.leave))))

abbrev pub check : Check KeyboardClient Event
check = record {
  step = step;
  init = init;
  compositor = λ c. c.compositor;
  seat = λ c. c.seat;
  is_seat = λ c. c.capabilities && c.name;
  passes = passes;
}

unfoldable pub keyboard_client_fd : World Event → Bool × List Call
keyboard_client_fd w = seat_client_fd check w

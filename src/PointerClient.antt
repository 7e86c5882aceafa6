-- ===== src/PointerClient.antt =====
-- src/bench/pointer-interop-client.c: the client of the pointer check.
pub mod Session
mod Tests
use wayring.Base.{◌==◌, if◌then◌else◌, ℕ, Bool, true, false, not, ◌&&◌, Option, none, List, []}
use Prim.Native.String.{String}
use wayring.Bench.{is_null, minus, fixed}
use wayring.Bench.Seats.{Call, Check, World, seat_client_fd}
use wayring.Bench.Texts.{streq}

-- `struct pointer_client_state`
pub record PointerClient : Type 0 where
  pub compositor : Option ℕ
  pub seat : Option ℕ
  pub capabilities : Bool
  pub name : Bool
  pub enter : Bool
  pub motion : Bool
  pub button : Bool
  pub axis : Bool
  pub axis_source : Bool
  pub axis_stop : Bool
  pub axis_discrete : Bool
  pub axis_value120 : Bool
  pub frame : Bool

-- No handler calls libwayland, but for wl_registry_bind.
abbrev pub Handler : Type 0
Handler = PointerClient → PointerClient × List Call

-- WL_SEAT_CAPABILITY_POINTER is 1.
seat_capabilities : ℕ → Handler
seat_capabilities capabilities c =
    (if capabilities == 1 then record c { capabilities = true } else c, [])

seat_name : String → Handler
seat_name name c = (if streq name "wayring-seat" then record c { name = true } else c, [])

-- 3.5 and -2.25 are 896 and -576 in units of 1/256.
abbrev pub is_enter : ℕ → Option ℕ → ℕ → ℕ → Bool
is_enter serial surface x y =
    (serial == 41) && (not (is_null surface) && ((x == 896) && (y == minus 576)))

pointer_enter : ℕ → Option ℕ → ℕ → ℕ → Handler
pointer_enter serial surface x y c =
    (if is_enter serial surface x y then record c { enter = true } else c, [])

pointer_leave : Handler
pointer_leave c = (c, [])

abbrev pub is_motion : ℕ → ℕ → ℕ → Bool
is_motion time x y = (time == 100) && ((x == fixed 4) && (y == fixed 5))

pointer_motion : ℕ → ℕ → ℕ → Handler
pointer_motion time x y c = (if is_motion time x y then record c { motion = true } else c, [])

-- WL_POINTER_BUTTON_STATE_PRESSED is 1.
abbrev pub is_button : ℕ → ℕ → ℕ → ℕ → Bool
is_button serial time button state =
    (serial == 42) && ((time == 101) && ((button == 272) && (state == 1)))

pointer_button : ℕ → ℕ → ℕ → ℕ → Handler
pointer_button serial time button state c =
    (if is_button serial time button state then record c { button = true } else c, [])

-- WL_POINTER_AXIS_VERTICAL_SCROLL and WL_POINTER_AXIS_SOURCE_WHEEL are 0.
abbrev pub is_axis : ℕ → ℕ → ℕ → Bool
is_axis time axis value = (time == 102) && ((axis == 0) && (value == minus (fixed 1)))

pointer_axis : ℕ → ℕ → ℕ → Handler
pointer_axis time axis value c =
    (if is_axis time axis value then record c { axis = true } else c, [])

pointer_frame : Handler
pointer_frame c = (record c { frame = true }, [])

pointer_axis_source : ℕ → Handler
pointer_axis_source source c = (if source == 0 then record c { axis_source = true } else c, [])

abbrev pub is_axis_stop : ℕ → ℕ → Bool
is_axis_stop time axis = (time == 103) && (axis == 0)

pointer_axis_stop : ℕ → ℕ → Handler
pointer_axis_stop time axis c =
    (if is_axis_stop time axis then record c { axis_stop = true } else c, [])

abbrev pub is_axis_discrete : ℕ → ℕ → Bool
is_axis_discrete axis discrete = (axis == 0) && (discrete == minus 1)

pointer_axis_discrete : ℕ → ℕ → Handler
pointer_axis_discrete axis discrete c =
    (if is_axis_discrete axis discrete then record c { axis_discrete = true } else c, [])

abbrev pub is_axis_value120 : ℕ → ℕ → Bool
is_axis_value120 axis value120 = (axis == 0) && (value120 == minus 120)

pointer_axis_value120 : ℕ → ℕ → Handler
pointer_axis_value120 axis value120 c =
    (if is_axis_value120 axis value120 then record c { axis_value120 = true } else c, [])

-- `bound` is what wl_registry_bind returned.
registry_global : String → Option ℕ → Handler
registry_global interface bound c = (
  if streq interface "wl_compositor"
      then record c { compositor = bound }
      else if streq interface "wl_seat"
      then record c { seat = bound }
      else c,
  [],
)

registry_global_remove : Handler
registry_global_remove c = (c, [])

-- The events that the listeners route to the handlers.
pub data Event : Type 0 where
  has_capabilities : ℕ → Event
  is_named : String → Event
  enters : ℕ → Option ℕ → ℕ → ℕ → Event
  leaves : Event
  moves : ℕ → ℕ → ℕ → Event
  presses : ℕ → ℕ → ℕ → ℕ → Event
  scrolls : ℕ → ℕ → ℕ → Event
  frames : Event
  sources : ℕ → Event
  stops discretes values : ℕ → ℕ → Event
  global : String → Option ℕ → Event
  global_remove : Event

unfoldable pub step : Event → Handler
unfolding seat_capabilities seat_name pointer_enter pointer_leave pointer_motion pointer_button
    pointer_axis pointer_frame pointer_axis_source pointer_axis_stop pointer_axis_discrete
    pointer_axis_value120 registry_global registry_global_remove
step (has_capabilities n) = seat_capabilities n
step (is_named n) = seat_name n
step (enters serial surface x y) = pointer_enter serial surface x y
step leaves = pointer_leave
step (moves time x y) = pointer_motion time x y
step (presses serial time b state) = pointer_button serial time b state
step (scrolls time a value) = pointer_axis time a value
step frames = pointer_frame
step (sources source) = pointer_axis_source source
step (stops time a) = pointer_axis_stop time a
step (discretes a discrete) = pointer_axis_discrete a discrete
step (values a value120) = pointer_axis_value120 a value120
step (global interface bound) = registry_global interface bound
step global_remove = registry_global_remove

-- `struct pointer_client_state state = {0};`
abbrev pub init : PointerClient
init = record {
  compositor = none;
  seat = none;
  capabilities = false;
  name = false;
  enter = false;
  motion = false;
  button = false;
  axis = false;
  axis_source = false;
  axis_stop = false;
  axis_discrete = false;
  axis_value120 = false;
  frame = false;
}

-- The test behind the third roundtrip.
abbrev pub passes : PointerClient → Bool
passes c =
    (c.enter && (c.motion && (c.button && c.axis)))
    && (c.axis_source && (c.axis_stop && (c.axis_discrete && (c.axis_value120 && c.frame))))

abbrev pub check : Check PointerClient Event
check = record {
  step = step;
  init = init;
  compositor = λ c. c.compositor;
  seat = λ c. c.seat;
  is_seat = λ c. c.capabilities && c.name;
  passes = passes;
}

unfoldable pub pointer_client_fd : World Event → Bool × List Call
pointer_client_fd w = seat_client_fd check w

-- ===== src/TouchClient.antt =====
-- src/bench/touch-interop-client.c: the client of the touch check.
pub mod Session
mod Tests
use wayring.Base.{
  ◌==◌, if◌then◌else◌, ℕ, ◌+◌, Bool, true, false, not, ◌&&◌, ◌||◌, Option, none, List, [],
}
use Prim.Native.String.{String}
use wayring.Bench.{is_null, minus, fixed}
use wayring.Bench.Seats.{Call, Check, World, seat_client_fd}
use wayring.Bench.Texts.{streq}

-- `struct touch_client_state`. The counters are an `int` each, whose overflow C leaves open.
pub record TouchClient : Type 0 where
  pub compositor : Option ℕ
  pub seat : Option ℕ
  pub capabilities : Bool
  pub name : Bool
  pub down : ℕ
  pub motion : Bool
  pub shape : Bool
  pub orientation : Bool
  pub up : Bool
  pub frames : ℕ
  pub cancel : Bool

-- No handler calls libwayland, but for wl_registry_bind.
abbrev pub Handler : Type 0
Handler = TouchClient → TouchClient × List Call

-- WL_SEAT_CAPABILITY_TOUCH is 4.
seat_capabilities : ℕ → Handler
seat_capabilities capabilities c =
    (if capabilities == 4 then record c { capabilities = true } else c, [])

seat_name : String → Handler
seat_name name c = (if streq name "wayring-seat" then record c { name = true } else c, [])

-- The first touch and the second, by how many there were. 1.5 is 384 in units of 1/256.
abbrev pub is_down : ℕ → ℕ → ℕ → Option ℕ → ℕ → ℕ → ℕ → Bool
is_down count serial time surface id x y =
    (((count == 0)
        && ((serial == 51)
            && ((time == 200) && ((id == 7) && ((x == 384) && (y == minus (fixed 2)))))))
      || ((count == 1)
          && ((serial == 53) && ((time == 203) && ((id == 8) && ((x == 0) && (y == 0)))))))
    && not (is_null surface)

touch_down : ℕ → ℕ → Option ℕ → ℕ → ℕ → ℕ → Handler
touch_down serial time surface id x y c =
    (if is_down c.down serial time surface id x y then record c { down = c.down + 1 } else c, [])

touch_up : ℕ → ℕ → ℕ → Handler
touch_up serial time id c =
    (if (serial == 52) && ((time == 202) && (id == 7)) then record c { up = true } else c, [])

touch_motion : ℕ → ℕ → ℕ → ℕ → Handler
touch_motion time id x y c = (
  if (time == 201) && ((id == 7) && ((x == fixed 3) && (y == fixed 4)))
      then record c { motion = true }
      else c,
  [],
)

touch_frame : Handler
touch_frame c = (record c { frames = c.frames + 1 }, [])

touch_cancel : Handler
touch_cancel c = (if c.down == 2 then record c { cancel = true } else c, [])

touch_shape : ℕ → ℕ → ℕ → Handler
touch_shape id major minor c = (
  if (id == 7) && ((major == fixed 5) && (minor == fixed 2)) then record c { shape = true } else c,
  [],
)

touch_orientation : ℕ → ℕ → Handler
touch_orientation id orientation c = (
  if (id == 7) && (orientation == minus (fixed 45)) then record c { orientation = true } else c,
  [],
)

-- `bound` is what wl_registry_bind returned.
registry_global : String → Option ℕ → Handler
registry_global interface bound c = (
  if streq interface "wl_compositor"
      then record c { compositor = bound }
      else if streq interface "wl_seat"
      then record c { seat = bound }
      else c,
  [],
)

registry_global_remove : Handler
registry_global_remove c = (c, [])

-- The events that the listeners route to the handlers.
pub data Event : Type 0 where
  has_capabilities : ℕ → Event
  is_named : String → Event
  touches_down : ℕ → ℕ → Option ℕ → ℕ → ℕ → ℕ → Event
  lifts : ℕ → ℕ → ℕ → Event
  moves : ℕ → ℕ → ℕ → ℕ → Event
  ends_frame cancels : Event
  shapes : ℕ → ℕ → ℕ → Event
  orients : ℕ → ℕ → Event
  global : String → Option ℕ → Event
  global_remove : Event

unfoldable pub step : Event → Handler
unfolding seat_capabilities seat_name touch_down touch_up touch_motion touch_frame touch_cancel
    touch_shape touch_orientation registry_global registry_global_remove
step (has_capabilities n) = seat_capabilities n
step (is_named n) = seat_name n
step (touches_down serial time surface id x y) = touch_down serial time surface id x y
step (lifts serial time id) = touch_up serial time id
step (moves time id x y) = touch_motion time id x y
step ends_frame = touch_frame
step cancels = touch_cancel
step (shapes id major minor) = touch_shape id major minor
step (orients id o) = touch_orientation id o
step (global interface bound) = registry_global interface bound
step global_remove = registry_global_remove

-- `struct touch_client_state state = {0};`
abbrev pub init : TouchClient
init = record {
  compositor = none;
  seat = none;
  capabilities = false;
  name = false;
  down = 0;
  motion = false;
  shape = false;
  orientation = false;
  up = false;
  frames = 0;
  cancel = false;
}

-- The test behind the third roundtrip.
abbrev pub passes : TouchClient → Bool
passes c =
    ((c.down == 2) && (c.motion && (c.shape && c.orientation)))
    && (c.up && ((c.frames == 2) && c.cancel))

abbrev pub check : Check TouchClient Event
check = record {
  step = step;
  init = init;
  compositor = λ c. c.compositor;
  seat = λ c. c.seat;
  is_seat = λ c. c.capabilities && c.name;
  passes = passes;
}

unfoldable pub touch_client_fd : World Event → Bool × List Call
touch_client_fd w = seat_client_fd check w

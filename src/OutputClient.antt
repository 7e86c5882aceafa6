-- ===== src/OutputClient.antt =====
-- src/bench/output-interop-client.c: the client of the output check.
pub mod Session
mod Tests
use wayring.Base.{
  ◌==◌, if◌then◌else◌, ℕ, Bool, true, false, not, ◌&&◌, ◌||◌, Option, none, some, List, [], ◌∷◌,
}
use Prim.Native.String.{String}
use wayring.Bench.{is_null, minus}
use wayring.Bench.History
use wayring.Bench.Texts.{streq}

-- `struct output_client_state`
pub record OutputClient : Type 0 where
  pub output : Option ℕ
  pub geometry : Bool
  pub mode : Bool
  pub scale : Bool
  pub name : Bool
  pub description : Bool
  pub done : Bool

-- What the client asks of the server and of the kernel.
pub data Call : Type 0 where
  output_release : ℕ → Call
  registry_destroy flush disconnect : Call

abbrev pub Handler : Type 0
Handler = OutputClient → OutputClient × List Call

-- What `output_geometry` requires of its arguments. WL_OUTPUT_SUBPIXEL_HORIZONTAL_RGB is 2 and
-- WL_OUTPUT_TRANSFORM_90 is 1.
abbrev pub is_geometry : ℕ → ℕ → ℕ → ℕ → ℕ → String → String → ℕ → Bool
is_geometry x y width height subpixel maker model transform =
    (x == minus 10)
    && ((y == 20)
        && ((width == 600)
            && ((height == 340)
                && ((subpixel == 2)
                    && (streq maker "Wayring" && (streq model "Virtual-1" && (transform == 1)))))))

output_geometry : ℕ → ℕ → ℕ → ℕ → ℕ → String → String → ℕ → Handler
output_geometry x y width height subpixel maker model transform c = (
  if is_geometry x y width height subpixel maker model transform
      then record c { geometry = true }
      else c,
  [],
)

-- The flags, current and preferred, are 3.
abbrev pub is_mode : ℕ → ℕ → ℕ → ℕ → Bool
is_mode flags width height refresh =
    (flags == 3) && ((width == 1920) && ((height == 1080) && (refresh == 60000)))

output_mode : ℕ → ℕ → ℕ → ℕ → Handler
output_mode flags width height refresh c =
    (if is_mode flags width height refresh then record c { mode = true } else c, [])

output_done : Handler
output_done c = (record c { done = true }, [])

output_scale : ℕ → Handler
output_scale factor c = (if factor == 2 then record c { scale = true } else c, [])

output_name : String → Handler
output_name name c = (if streq name "WL-1" then record c { name = true } else c, [])

output_description : String → Handler
output_description description c =
    (if streq description "Wayring virtual output" then record c { description = true } else c, [])

-- `bound` is what wl_registry_bind returned.
registry_global : String → Option ℕ → Handler
registry_global interface bound c =
    (if not (streq interface "wl_output") then c else record c { output = bound }, [])

registry_global_remove : Handler
registry_global_remove c = (c, [])

-- The events that the listeners route to the handlers.
pub data Event : Type 0 where
  has_geometry : ℕ → ℕ → ℕ → ℕ → ℕ → String → String → ℕ → Event
  has_mode : ℕ → ℕ → ℕ → ℕ → Event
  is_done : Event
  has_scale : ℕ → Event
  is_named is_described : String → Event
  global : String → Option ℕ → Event
  global_remove : Event

unfoldable pub step : Event → Handler
unfolding output_geometry output_mode output_done output_scale output_name output_description
    registry_global registry_global_remove
step (has_geometry x y w h subpixel maker model t) = output_geometry x y w h subpixel maker model t
step (has_mode flags w h refresh) = output_mode flags w h refresh
step is_done = output_done
step (has_scale factor) = output_scale factor
step (is_named n) = output_name n
step (is_described d) = output_description d
step (global interface bound) = registry_global interface bound
step global_remove = registry_global_remove

-- `struct output_client_state state = {0};`
abbrev pub init : OutputClient
init = record {
  output = none;
  geometry = false;
  mode = false;
  scale = false;
  name = false;
  description = false;
  done = false;
}

-- What a wl_display_roundtrip dispatches, and whether it succeeds.
abbrev pub Roundtrip : Type 0
Roundtrip = List Event × Bool

-- What the calls of `output_client_fd` return.
pub record World : Type 0 where
  pub connected : Bool
  pub first : Roundtrip
  pub second : Roundtrip

-- The test behind the second roundtrip.
abbrev pub passes : OutputClient → Bool
passes c = c.geometry && (c.mode && (c.scale && (c.name && (c.description && c.done))))

-- The state at the label `cleanup`, and the status.
unfoldable pub before_cleanup : World → OutputClient × Bool
before_cleanup w =
    let c = History.run step init w.first.0 in
    let d = History.run step c w.second.0 in
    if not w.first.1 || is_null c.output then (c, false) else (d, w.second.1 && passes d)

-- The label `cleanup`.
unfoldable pub cleanup : Option ℕ → List Call
cleanup none = registry_destroy ∷ flush ∷ disconnect ∷ []
cleanup (some output) = output_release output ∷ registry_destroy ∷ flush ∷ disconnect ∷ []

-- The status, EXIT_SUCCESS being true, and the calls. No handler makes one.
unfoldable pub output_client_fd : World → Bool × List Call
output_client_fd w =
    let (c, status) = before_cleanup w in
    if w.connected then (status, cleanup c.output) else (false, [])

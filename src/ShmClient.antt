-- ===== src/ShmClient.antt =====
-- src/bench/shm-interop-client.c: the client of the SHM check, and the calls that it makes of libwayland
-- and of the kernel, in order.
pub mod Main
pub mod Stages
pub mod Served
pub mod Session
mod Tests
use wayring.Base.{◌==◌, if◌then◌else◌, ℕ, Bool, true, false, Option, none, List, [], ◌∷◌}
use Prim.Native.String.{String}
use wayring.Bench.Texts.{streq}

-- `struct shm_client_state`
pub record ShmClient : Type 0 where
  pub shm : Option ℕ
  pub compositor : Option ℕ
  pub viewporter : Option ℕ
  pub format_seen : Bool
  pub buffer_released : Bool
  pub frame_done : Bool

-- What the client asks of the server and of the kernel. A call that makes an object has what it returns,
-- at the end.
pub data Call : Type 0 where
  create_pool : Option ℕ → ℕ → Option ℕ → Call
  create_buffer : ℕ → ℕ → ℕ → ℕ → ℕ → Option ℕ → Call
  create_surface create_region frame : Option ℕ → Call
  get_viewport : Option ℕ → Option ℕ → Call
  region_add region_subtract damage damage_buffer set_source : ℕ → ℕ → ℕ → ℕ → Call
  attach : Option ℕ → ℕ → ℕ → Call
  set_opaque_region set_input_region : Option ℕ → Call
  set_buffer_transform set_buffer_scale : ℕ → Call
  set_destination offset : ℕ → ℕ → Call
  commit : Call
  close callback_destroy : ℕ → Call
  region_destroy viewport_destroy surface_destroy buffer_destroy pool_destroy : ℕ → Call
  shm_destroy compositor_destroy viewporter_destroy : ℕ → Call
  registry_destroy flush disconnect : Call

abbrev pub Handler : Type 0
Handler = ShmClient → ShmClient × List Call

handle_buffer_release : Handler
handle_buffer_release c = (record c { buffer_released = true }, [])

handle_frame_done : ℕ → ℕ → Handler
handle_frame_done callback time c =
    (if time == 123 then record c { frame_done = true } else c, callback_destroy callback ∷ [])

-- WL_SHM_FORMAT_ARGB8888 is 0.
handle_shm_format : ℕ → Handler
handle_shm_format format c = (if format == 0 then record c { format_seen = true } else c, [])

-- `bound` is what wl_registry_bind returned.
handle_shm_global : String → Option ℕ → Handler
handle_shm_global interface bound c = (
  if streq interface "wl_shm"
      then record c { shm = bound }
      else if streq interface "wl_compositor"
      then record c { compositor = bound }
      else if streq interface "wp_viewporter"
      then record c { viewporter = bound }
      else c,
  [],
)

handle_shm_global_remove : Handler
handle_shm_global_remove c = (c, [])

-- The events that the listeners route to the handlers.
pub data Event : Type 0 where
  releases : Event
  dones : ℕ → ℕ → Event
  formats : ℕ → Event
  global : String → Option ℕ → Event
  global_remove : Event

unfoldable pub step : Event → Handler
unfolding handle_buffer_release handle_frame_done handle_shm_format handle_shm_global
    handle_shm_global_remove
step releases = handle_buffer_release
step (dones callback time) = handle_frame_done callback time
step (formats format) = handle_shm_format format
step (global interface bound) = handle_shm_global interface bound
step global_remove = handle_shm_global_remove

-- `struct shm_client_state state = {0};`
abbrev pub init : ShmClient
init = record {
  shm = none;
  compositor = none;
  viewporter = none;
  format_seen = false;
  buffer_released = false;
  frame_done = false;
}

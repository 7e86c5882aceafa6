-- ===== src/DmabufClient.antt =====
-- src/bench/dmabuf-interop-client.c: the client of the linux-dmabuf check.
pub mod Main
pub mod Stages
pub mod Session
mod Tests
use wayring.Base.{◌==◌, if◌then◌else◌, ℕ, Bool, true, false, not, ◌&&◌, Option, none, List, []}
use Prim.Native.String.{String}
use wayring.Bench.Texts.{streq}
use wayring.DmabufServer.{drm_format_argb8888, drm_format_mod_invalid_hi, drm_format_mod_invalid_lo}

-- `struct dmabuf_client_state`
pub record DmabufClient : Type 0 where
  pub dmabuf : Option ℕ
  pub async_buffer : Option ℕ
  pub modifier_seen : Bool
  pub create_failed : Bool

-- What the client asks of the server and of the kernel. A call that makes an object has what it returns,
-- at the end. The plane of `add` has the index, offset and stride of the code.
pub data Call : Type 0 where
  create_params : Option ℕ → Call
  add : Option ℕ → Option ℕ → ℕ → ℕ → ℕ → ℕ → ℕ → Call
  create_immed : Option ℕ → ℕ → ℕ → ℕ → ℕ → Option ℕ → Call
  create : Option ℕ → ℕ → ℕ → ℕ → ℕ → Call
  close buffer_destroy params_destroy dmabuf_destroy : ℕ → Call
  registry_destroy flush disconnect : Call

-- No handler calls libwayland, but for wl_registry_bind.
abbrev pub Handler : Type 0
Handler = DmabufClient → DmabufClient × List Call

handle_dmabuf_format : Handler
handle_dmabuf_format c = (c, [])

abbrev pub is_modifier : ℕ → ℕ → ℕ → Bool
is_modifier format hi lo =
    (format == drm_format_argb8888)
    && ((hi == drm_format_mod_invalid_hi) && (lo == drm_format_mod_invalid_lo))

handle_dmabuf_modifier : ℕ → ℕ → ℕ → Handler
handle_dmabuf_modifier format hi lo c =
    (if is_modifier format hi lo then record c { modifier_seen = true } else c, [])

-- `bound` is what wl_registry_bind returned.
handle_dmabuf_global : String → Option ℕ → Handler
handle_dmabuf_global interface bound c =
    (if not (streq interface "zwp_linux_dmabuf_v1") then c else record c { dmabuf = bound }, [])

handle_dmabuf_global_remove : Handler
handle_dmabuf_global_remove c = (c, [])

handle_params_created : Option ℕ → Handler
handle_params_created buffer c = (record c { async_buffer = buffer }, [])

handle_params_failed : Handler
handle_params_failed c = (record c { create_failed = true }, [])

-- The events that the listeners route to the handlers.
pub data Event : Type 0 where
  has_format : Event
  has_modifier : ℕ → ℕ → ℕ → Event
  global : String → Option ℕ → Event
  global_remove : Event
  is_created : Option ℕ → Event
  has_failed : Event

unfoldable pub step : Event → Handler
unfolding handle_dmabuf_format handle_dmabuf_modifier handle_dmabuf_global
    handle_dmabuf_global_remove handle_params_created handle_params_failed
step has_format = handle_dmabuf_format
step (has_modifier format hi lo) = handle_dmabuf_modifier format hi lo
step (global interface bound) = handle_dmabuf_global interface bound
step global_remove = handle_dmabuf_global_remove
step (is_created buffer) = handle_params_created buffer
step has_failed = handle_params_failed

-- `struct dmabuf_client_state state = {0};`
abbrev pub init : DmabufClient
init = record { dmabuf = none; async_buffer = none; modifier_seen = false; create_failed = false }

-- ===== src/DmabufServer.antt =====
-- src/bench/dmabuf-interop-server.c: the peer of the linux-dmabuf check.
pub mod Planes
pub mod Verdict
mod Tests
use wayring.Base.{
  ◌==◌, if◌then◌else◌, ℕ, ◌+◌, ◌-◌, ◌^◌, Bool, true, false, not, ◌&&◌, ◌||◌, Option, List, [], ◌∷◌,
}
use wayring.Bench.{
  send, post_implementation_error, post_no_memory, terminate, destroy_resource, close_fd, Step,
  is_null, is_cloexec, reject,
}
use wayring.Bench.History
use wayring.Bench.Launch.{Setup, Outcome, launch}

abbrev pub drm_format_argb8888 : ℕ
drm_format_argb8888 = 875713089

abbrev pub drm_format_mod_invalid_hi : ℕ
drm_format_mod_invalid_hi = 2 ^ 24 - 1

abbrev pub drm_format_mod_invalid_lo : ℕ
drm_format_mod_invalid_lo = 2 ^ 32 - 1

-- `struct dmabuf_server_state`, without libwayland's own handles. The counters are an `int` each, whose
-- overflow C leaves open.
pub record DmabufServer : Type 0 where
  pub params_created : Bool
  pub plane_added : Bool
  pub buffer_created : Bool
  pub buffer_destroyed : Bool
  pub params_destroyed : Bool
  pub dmabuf_destroyed : Bool
  pub create_failed : Bool
  pub params_created_count : ℕ
  pub plane_added_count : ℕ
  pub buffer_created_count : ℕ
  pub buffer_destroyed_count : ℕ
  pub params_destroyed_count : ℕ

-- The events that it sends, each with the resource that sends it.
pub data Event : Type 0 where
  failed : ℕ → Event
  created : ℕ → Option ℕ → Event
  modifier : Option ℕ → ℕ → ℕ → ℕ → Event

abbrev pub Handler : Type 0
Handler = DmabufServer → Step DmabufServer Event

dmabuf_buffer_destroy : ℕ → Handler
dmabuf_buffer_destroy resource s = (
  record s { buffer_destroyed = true; buffer_destroyed_count = s.buffer_destroyed_count + 1 },
  destroy_resource resource ∷ [],
)

params_destroy : ℕ → Handler
params_destroy resource s = (
  record s {
    params_destroyed = if s.buffer_destroyed then true else s.params_destroyed;
    params_destroyed_count = s.params_destroyed_count + 1;
  },
  destroy_resource resource ∷ [],
)

-- What `params_add` requires of a plane; `flags` is what fcntl returned for its descriptor.
abbrev pub is_plane : Option ℕ → ℕ → ℕ → ℕ → ℕ → ℕ → Bool
is_plane flags plane_idx offset stride modifier_hi modifier_lo =
    is_cloexec flags
    && ((plane_idx == 0)
        && ((offset == 0)
            && ((stride == 4)
                && ((modifier_hi == drm_format_mod_invalid_hi)
                    && (modifier_lo == drm_format_mod_invalid_lo)))))

params_add : ℕ → Option ℕ → ℕ → ℕ → ℕ → ℕ → ℕ → Handler
params_add fd flags plane_idx offset stride modifier_hi modifier_lo s =
    if not (is_plane flags plane_idx offset stride modifier_hi modifier_lo)
    then (s, close_fd fd ∷ post_implementation_error ∷ [])
    else (
      record s { plane_added = true; plane_added_count = s.plane_added_count + 1 },
      close_fd fd ∷ [],
    )

abbrev pub add_buffer : DmabufServer → DmabufServer
add_buffer s = record s { buffer_created = true; buffer_created_count = s.buffer_created_count + 1 }

-- `buffer` is what wl_resource_create returned.
params_create : ℕ → ℕ → ℕ → ℕ → ℕ → Option ℕ → Handler
params_create resource width height fmt flags buffer s =
    if not s.plane_added
      || (not (height == 1)
          || (not (fmt == drm_format_argb8888)
              || (not (flags == 0) || (not (width == 1) && not (width == 2)))))
    then reject s
    else if width == 2
    then (record s { create_failed = true }, send (failed resource) ∷ [])
    else if is_null buffer
    then (s, post_no_memory ∷ [])
    else (add_buffer s, send (created resource buffer) ∷ [])

params_create_immed : ℕ → ℕ → ℕ → ℕ → Option ℕ → Handler
params_create_immed width height fmt flags buffer s =
    if not s.plane_added
      || (not (width == 1)
          || (not (height == 1) || (not (fmt == drm_format_argb8888) || not (flags == 0))))
    then reject s
    else if is_null buffer
    then (s, post_no_memory ∷ [])
    else (add_buffer s, [])

dmabuf_destroy : ℕ → Handler
dmabuf_destroy resource s = (
  if s.params_destroyed then record s { dmabuf_destroyed = true } else s,
  destroy_resource resource ∷ [],
)

dmabuf_create_params : Option ℕ → Handler
dmabuf_create_params params s =
    if is_null params
    then (s, post_no_memory ∷ [])
    else (record s { params_created = true; params_created_count = s.params_created_count + 1 }, [])

bind_dmabuf : Option ℕ → Handler
bind_dmabuf resource s = (
  s,
  if is_null resource
      then post_no_memory ∷ []
      else send (
          modifier resource drm_format_argb8888 drm_format_mod_invalid_hi drm_format_mod_invalid_lo)
        ∷ [],
)

handle_dmabuf_client_destroy : Handler
handle_dmabuf_client_destroy s = (s, terminate ∷ [])

-- The requests that the interface tables route to the handlers.
pub data Request : Type 0 where
  destroys_buffer destroys_params destroys_dmabuf : ℕ → Request
  adds : ℕ → Option ℕ → ℕ → ℕ → ℕ → ℕ → ℕ → Request
  creates : ℕ → ℕ → ℕ → ℕ → ℕ → Option ℕ → Request
  creates_immed : ℕ → ℕ → ℕ → ℕ → Option ℕ → Request
  creates_params binds_dmabuf : Option ℕ → Request
  leaves : Request

unfoldable pub step : Request → Handler
unfolding dmabuf_buffer_destroy params_destroy params_add params_create params_create_immed
    dmabuf_destroy dmabuf_create_params bind_dmabuf handle_dmabuf_client_destroy
step (destroys_buffer r) = dmabuf_buffer_destroy r
step (destroys_params r) = params_destroy r
step (destroys_dmabuf r) = dmabuf_destroy r
step (adds fd flags p o st hi lo) = params_add fd flags p o st hi lo
step (creates r w h f flags b) = params_create r w h f flags b
step (creates_immed w h f flags b) = params_create_immed w h f flags b
step (creates_params c) = dmabuf_create_params c
step (binds_dmabuf c) = bind_dmabuf c
step leaves = handle_dmabuf_client_destroy

-- `struct dmabuf_server_state state = {0};`
abbrev pub init : DmabufServer
init = record {
  params_created = false;
  plane_added = false;
  buffer_created = false;
  buffer_destroyed = false;
  params_destroyed = false;
  dmabuf_destroyed = false;
  create_failed = false;
  params_created_count = 0;
  plane_added_count = 0;
  buffer_created_count = 0;
  buffer_destroyed_count = 0;
  params_destroyed_count = 0;
}

-- The verdict after the event loop.
unfoldable pub succeeded : DmabufServer → Bool
succeeded s =
    (s.params_created
      && (s.plane_added
          && (s.buffer_created
              && (s.buffer_destroyed
                  && (s.params_destroyed && (s.dmabuf_destroyed && s.create_failed))))))
    && ((s.params_created_count == 3)
        && ((s.plane_added_count == 3)
            && ((s.buffer_created_count == 2)
                && ((s.buffer_destroyed_count == 2) && (s.params_destroyed_count == 3)))))

unfoldable pub dmabuf_server_fd : Setup → List Request → Outcome
dmabuf_server_fd env rs = launch env (succeeded (History.run step init rs))

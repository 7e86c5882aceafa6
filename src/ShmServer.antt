-- ===== src/ShmServer.antt =====
-- src/bench/shm-interop-server.c: the peer of the SHM interoperability check, which ticks off what
-- its client did and at the end says whether all of it was done.
pub mod Run
pub mod Causes
mod Tests
use wayring.Base.{◌==◌, if◌then◌else◌, ℕ, Bool, true, not, ◌&&◌, ◌||◌, Option, none, some, [], ◌∷◌}
use wayring.Bench.{
  send, post_implementation_error, post_no_memory, terminate, destroy_resource, close_fd, Step,
  same, is_null, minus, fixed, is_cloexec,
}

-- `struct shm_server_state`, without the handles of libwayland's that only libwayland reads.
pub record ShmServer : Type 0 where
  pub buffer : Option ℕ
  pub frame : Option ℕ
  pub region : Option ℕ
  pub surface : Option ℕ
  pub pool_created : Bool
  pub buffer_created : Bool
  pub buffer_destroyed : Bool
  pub pool_destroyed : Bool
  pub surface_created : Bool
  pub surface_destroyed : Bool
  pub attached : Bool
  pub damaged : Bool
  pub damaged_buffer : Bool
  pub committed : Bool
  pub region_added : Bool
  pub region_subtracted : Bool
  pub region_destroyed : Bool
  pub opaque_region_set : Bool
  pub input_region_set : Bool
  pub transformed : Bool
  pub scaled : Bool
  pub offset : Bool
  pub viewport_created : Bool
  pub viewport_source : Bool
  pub viewport_destination : Bool
  pub viewport_destroyed : Bool

-- The events that it sends.
pub data Event : Type 0 where
  format : ℕ → ℕ → Event
  release : Option ℕ → Event
  done : ℕ → ℕ → Event

abbrev pub Handler : Type 0
Handler = ShmServer → Step ShmServer Event

abbrev reject : Handler
reject s = (s, post_implementation_error ∷ [])

buffer_destroy : ℕ → Handler
buffer_destroy resource s = (record s { buffer_destroyed = true }, destroy_resource resource ∷ [])

-- WL_SHM_FORMAT_ARGB8888 is 0. `created` is what wl_resource_create returned.
pool_create_buffer : ℕ → ℕ → ℕ → ℕ → ℕ → Option ℕ → Handler
pool_create_buffer off width height stride fmt created s =
    if not (off == 0)
      || (not (width == 2) || (not (height == 2) || (not (stride == 8) || not (fmt == 0))))
    then reject s
    else if is_null created
    then (s, post_no_memory ∷ [])
    else (record s { buffer = created; buffer_created = true }, [])

pool_destroy : ℕ → Handler
pool_destroy resource s = (
  if s.buffer_destroyed then record s { pool_destroyed = true } else s,
  destroy_resource resource ∷ [],
)

pool_resize : Handler
pool_resize s = reject s

-- `flags` is what fcntl returned for the descriptor.
shm_create_pool : ℕ → ℕ → Option ℕ → Option ℕ → Handler
shm_create_pool fd size flags created s =
    if not (size == 4096) || not (is_cloexec flags)
    then (s, close_fd fd ∷ post_implementation_error ∷ [])
    else if is_null created
    then (s, close_fd fd ∷ post_no_memory ∷ [])
    else (record s { pool_created = true }, close_fd fd ∷ [])

bind_shm : Option ℕ → Handler
bind_shm none s = (s, post_no_memory ∷ [])
bind_shm (some r) s = (s, send (format r 0) ∷ [])

surface_destroy : ℕ → Handler
surface_destroy resource s =
    (record s { surface_destroyed = true; surface = none }, destroy_resource resource ∷ [])

surface_attach : Option ℕ → ℕ → ℕ → Handler
surface_attach b x y s =
    if not (same b s.buffer) || (not (x == 0) || not (y == 0))
    then reject s
    else (record s { attached = true }, [])

-- The test that four handlers make of a rectangle.
abbrev is_rect : ℕ → ℕ → ℕ → ℕ → ℕ → ℕ → ℕ → ℕ → Bool
is_rect a b c d x y width height = (x == a) && ((y == b) && ((width == c) && (height == d)))

surface_damage : ℕ → ℕ → ℕ → ℕ → Handler
surface_damage x y width height s =
    if is_rect 1 2 3 4 x y width height then (record s { damaged = true }, []) else reject s

surface_frame : Option ℕ → Handler
surface_frame created s =
    (record s { frame = created }, if is_null created then post_no_memory ∷ [] else [])

surface_set_opaque_region : Option ℕ → Handler
surface_set_opaque_region r s =
    if same r s.region then (record s { opaque_region_set = true }, []) else reject s

surface_set_input_region : Option ℕ → Handler
surface_set_input_region r s =
    if same r s.region then (record s { input_region_set = true }, []) else reject s

abbrev is_complete : ShmServer → Bool
is_complete s =
    s.attached && (s.damaged && (s.damaged_buffer && (s.viewport_source && s.viewport_destination)))

commit_frame : Option ℕ → Handler
commit_frame none s = reject s
commit_frame (some f) s =
    if is_complete s
    then (
      record s { frame = none; committed = true },
      send (release s.buffer) ∷ send (done f 123) ∷ destroy_resource f ∷ [],
    )
    else reject s

surface_commit : Handler
unfolding commit_frame
surface_commit s = commit_frame s.frame s

surface_damage_buffer : ℕ → ℕ → ℕ → ℕ → Handler
surface_damage_buffer x y width height s =
    if is_rect 5 6 7 8 x y width height then (record s { damaged_buffer = true }, []) else reject s

-- WL_OUTPUT_TRANSFORM_90 is 1.
surface_set_buffer_transform : ℕ → Handler
surface_set_buffer_transform t s =
    if t == 1 then (record s { transformed = true }, []) else reject s

surface_set_buffer_scale : ℕ → Handler
surface_set_buffer_scale scale s = if scale == 2 then (record s { scaled = true }, []) else reject s

surface_offset : ℕ → ℕ → Handler
surface_offset x y s =
    if (x == 2) && (y == minus 3) then (record s { offset = true }, []) else reject s

region_destroy : ℕ → Handler
region_destroy resource s =
    (record s { region_destroyed = true; region = none }, destroy_resource resource ∷ [])

region_add : ℕ → ℕ → ℕ → ℕ → Handler
region_add x y width height s =
    if is_rect 1 2 3 4 x y width height then (record s { region_added = true }, []) else reject s

region_subtract : ℕ → ℕ → ℕ → ℕ → Handler
region_subtract x y width height s =
    if is_rect 5 6 7 8 x y width height
    then (record s { region_subtracted = true }, [])
    else reject s

compositor_create_surface : Option ℕ → Handler
compositor_create_surface created s =
    if is_null created
    then (s, post_no_memory ∷ [])
    else (record s { surface_created = true; surface = created }, [])

compositor_create_region : Option ℕ → Handler
compositor_create_region created s =
    (record s { region = created }, if is_null created then post_no_memory ∷ [] else [])

-- `bind_compositor` and `bind_viewporter`: the resource is made, and nothing else.
bind_other : Option ℕ → Handler
bind_other created s = (s, if is_null created then post_no_memory ∷ [] else [])

viewport_destroy : ℕ → Handler
viewport_destroy resource s =
    (record s { viewport_destroyed = true }, destroy_resource resource ∷ [])

viewport_set_source : ℕ → ℕ → ℕ → ℕ → Handler
viewport_set_source x y width height s =
    if is_rect (fixed 0) (fixed 0) (fixed 1) (fixed 1) x y width height
    then (record s { viewport_source = true }, [])
    else reject s

viewport_set_destination : ℕ → ℕ → Handler
viewport_set_destination width height s =
    if (width == 3) && (height == 4)
    then (record s { viewport_destination = true }, [])
    else reject s

viewporter_destroy : ℕ → Handler
viewporter_destroy resource s = (s, destroy_resource resource ∷ [])

viewporter_get_viewport : Option ℕ → Option ℕ → Handler
viewporter_get_viewport target created s =
    if not (same target s.surface)
    then reject s
    else if is_null created
    then (s, post_no_memory ∷ [])
    else (record s { viewport_created = true }, [])

handle_shm_client_destroy : Handler
handle_shm_client_destroy s = (s, terminate ∷ [])

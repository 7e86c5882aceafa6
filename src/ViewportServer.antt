-- ===== src/ViewportServer.antt =====
-- src/bench/viewport-benchmark.c, the server: it counts the viewport operations of one client, each a
-- source, a destination and a commit in that order, and tells at the end whether all were whole.
pub mod Pace
pub mod Operations
mod Tests
use wayring.Base.{
  ◌==◌, if◌then◌else◌, ℕ, ◌+◌, ◌%◌, ◌^◌, Bool, true, false, not, ◌&&◌, Option, none, List, [], ◌∷◌,
}
use wayring.Bench.{
  post_implementation_error, post_no_memory, terminate, destroy_resource, Step, same, is_null,
  fixed,
}
use wayring.Bench.History
use wayring.Bench.Launch.{Setup, Outcome, launch}

-- `struct server_state`, without libwayland's own handles.
pub record ViewportServer : Type 0 where
  pub surface : Option ℕ
  pub phase : ℕ
  pub sources : ℕ
  pub destinations : ℕ
  pub commits : ℕ
  pub valid : Bool
  pub viewport_created : Bool

-- The server sends no events.
pub data NoEvent : Type 0 where

abbrev pub Handler : Type 0
Handler = ViewportServer → Step ViewportServer NoEvent

-- `n++` on a uint64_t.
abbrev pub count_up : ℕ → ℕ
count_up n = (n + 1) % 2 ^ 64

abbrev invalid : ViewportServer → ViewportServer
invalid s = record s { valid = false }

surface_destroy : ℕ → Handler
surface_destroy resource s = (
  record (if s.phase == 0 then s else invalid s) { surface = none },
  destroy_resource resource ∷ [],
)

surface_commit : Handler
surface_commit s = (
  record (if s.phase == 2 then record s { commits = count_up s.commits } else invalid s) {
    phase = 0;
  },
  [],
)

-- `created` is what wl_resource_create returned.
create_surface : Option ℕ → Handler
create_surface created s =
    if not (is_null s.surface)
    then (invalid s, post_implementation_error ∷ [])
    else if is_null created
    then (s, post_no_memory ∷ [])
    else (record s { surface = created }, [])

bind_compositor : Option ℕ → Handler
bind_compositor created s = (s, if is_null created then post_no_memory ∷ [] else [])

viewport_destroy : ℕ → Handler
viewport_destroy resource s = (s, destroy_resource resource ∷ [])

viewport_set_source : ℕ → ℕ → ℕ → ℕ → Handler
viewport_set_source x y width height s =
    if (s.phase == 0)
      && ((x == fixed 0) && ((y == fixed 0) && ((width == fixed 1) && (height == fixed 1))))
    then (record s { sources = count_up s.sources; phase = 1 }, [])
    else (invalid s, post_implementation_error ∷ [])

viewport_set_destination : ℕ → ℕ → Handler
viewport_set_destination width height s =
    if (s.phase == 1) && ((width == 3) && (height == 4))
    then (record s { destinations = count_up s.destinations; phase = 2 }, [])
    else (invalid s, post_implementation_error ∷ [])

viewporter_destroy : ℕ → Handler
viewporter_destroy resource s = (s, destroy_resource resource ∷ [])

get_viewport : Option ℕ → Option ℕ → Handler
get_viewport target created s =
    if not (same target s.surface)
    then (invalid s, post_implementation_error ∷ [])
    else if s.viewport_created
    then (invalid s, post_implementation_error ∷ [])
    else if is_null created
    then (s, post_no_memory ∷ [])
    else (record s { viewport_created = true }, [])

bind_viewporter : Option ℕ → Handler
bind_viewporter created s = (s, if is_null created then post_no_memory ∷ [] else [])

client_destroyed : Handler
client_destroyed s = (if s.phase == 0 then s else invalid s, terminate ∷ [])

-- The requests that the interface tables route to the handlers.
pub data Request : Type 0 where
  destroys_surface : ℕ → Request
  commits : Request
  creates_surface : Option ℕ → Request
  binds_compositor : Option ℕ → Request
  destroys_viewport : ℕ → Request
  sets_source : ℕ → ℕ → ℕ → ℕ → Request
  sets_destination : ℕ → ℕ → Request
  destroys_viewporter : ℕ → Request
  gets_viewport : Option ℕ → Option ℕ → Request
  binds_viewporter : Option ℕ → Request
  leaves : Request

unfoldable pub step : Request → Handler
unfolding surface_destroy surface_commit create_surface bind_compositor viewport_destroy
    viewport_set_source viewport_set_destination viewporter_destroy get_viewport bind_viewporter
    client_destroyed
step (destroys_surface r) = surface_destroy r
step commits = surface_commit
step (creates_surface c) = create_surface c
step (binds_compositor c) = bind_compositor c
step (destroys_viewport r) = viewport_destroy r
step (sets_source x y w h) = viewport_set_source x y w h
step (sets_destination w h) = viewport_set_destination w h
step (destroys_viewporter r) = viewporter_destroy r
step (gets_viewport t c) = get_viewport t c
step (binds_viewporter c) = bind_viewporter c
step leaves = client_destroyed

-- `struct server_state state = {.valid = 1};`
abbrev pub init : ViewportServer
init = record {
  surface = none;
  phase = 0;
  sources = 0;
  destinations = 0;
  commits = 0;
  valid = true;
  viewport_created = false;
}

-- The verdict after the event loop.
unfoldable pub succeeded : ViewportServer → Bool
succeeded s =
    s.valid && (s.viewport_created && ((s.sources == s.commits) && (s.destinations == s.commits)))

unfoldable pub viewport_benchmark_server_fd : Setup → List Request → Outcome
viewport_benchmark_server_fd env rs = launch env (succeeded (History.run step init rs))

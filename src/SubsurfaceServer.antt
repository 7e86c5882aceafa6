-- ===== src/SubsurfaceServer.antt =====
-- src/bench/subsurface-interop-server.c: the peer of the subsurface check.
pub mod Counts
mod Tests
use wayring.Base.{
  ◌==◌, if◌then◌else◌, ℕ, ◌+◌, Bool, true, false, not, ◌&&◌, ◌||◌, Option, none, some, List, [],
  ◌∷◌,
}
use wayring.Bench.{
  post_no_memory, terminate, destroy_resource, Step, same, is_null, minus, reject, make,
}
use wayring.Bench.History
use wayring.Bench.Launch.{Setup, Outcome, launch}

-- `struct subsurface_server_state`, without libwayland's own handles. The counters are an `int` each,
-- whose overflow C leaves open.
pub record SubsurfaceServer : Type 0 where
  pub parent : Option ℕ
  pub child : Option ℕ
  pub surfaces_created : ℕ
  pub surfaces_destroyed : ℕ
  pub surface_commits : ℕ
  pub subsurface_created : Bool
  pub positioned : Bool
  pub above : Bool
  pub below : Bool
  pub sync : Bool
  pub desync : Bool
  pub subsurface_destroyed : Bool
  pub subcompositor_destroyed : Bool

-- The server sends no events.
pub data NoEvent : Type 0 where

abbrev pub Handler : Type 0
Handler = SubsurfaceServer → Step SubsurfaceServer NoEvent

subsurface_destroy : ℕ → Handler
subsurface_destroy resource s =
    (record s { subsurface_destroyed = true }, destroy_resource resource ∷ [])

subsurface_set_position : ℕ → ℕ → Handler
subsurface_set_position x y s =
    if not (x == minus 7) || not (y == 11) then reject s else (record s { positioned = true }, [])

-- The siblings and surfaces of the requests are never NULL: their arguments do not allow it.
subsurface_place_above : ℕ → Handler
subsurface_place_above sibling s =
    if not (same (some sibling) s.parent) then reject s else (record s { above = true }, [])

subsurface_place_below : ℕ → Handler
subsurface_place_below sibling s =
    if not (same (some sibling) s.parent) then reject s else (record s { below = true }, [])

subsurface_set_sync : Handler
subsurface_set_sync s = (record s { sync = true }, [])

subsurface_set_desync : Handler
subsurface_set_desync s = (record s { desync = true }, [])

subcompositor_destroy : ℕ → Handler
subcompositor_destroy resource s =
    (record s { subcompositor_destroyed = true }, destroy_resource resource ∷ [])

subcompositor_get_subsurface : ℕ → ℕ → Option ℕ → Handler
subcompositor_get_subsurface surface parent created s =
    if not (same (some surface) s.child) || not (same (some parent) s.parent)
    then reject s
    else if is_null created
    then (s, post_no_memory ∷ [])
    else (record s { subsurface_created = true }, [])

bind_subcompositor : Option ℕ → Handler
bind_subcompositor created s = make created s

surface_destroy : ℕ → Handler
surface_destroy resource s =
    (record s { surfaces_destroyed = s.surfaces_destroyed + 1 }, destroy_resource resource ∷ [])

surface_commit : Handler
surface_commit s = (record s { surface_commits = s.surface_commits + 1 }, [])

compositor_create_surface : Option ℕ → Handler
compositor_create_surface created s =
    let counted = record s { surfaces_created = s.surfaces_created + 1 } in
    if is_null created then (s, post_no_memory ∷ []) else (
      if s.surfaces_created == 0
          then record counted { parent = created }
          else record counted { child = created },
      [],
    )

compositor_create_region : Handler
compositor_create_region s = reject s

bind_compositor : Option ℕ → Handler
bind_compositor created s = make created s

handle_client_destroy : Handler
handle_client_destroy s = (s, terminate ∷ [])

-- The requests that the interface tables route to the handlers.
pub data Request : Type 0 where
  destroys_subsurface : ℕ → Request
  positions : ℕ → ℕ → Request
  places_above places_below : ℕ → Request
  syncs desyncs : Request
  destroys_subcompositor : ℕ → Request
  gets_subsurface : ℕ → ℕ → Option ℕ → Request
  binds_subcompositor : Option ℕ → Request
  destroys_surface : ℕ → Request
  commits : Request
  creates_surface : Option ℕ → Request
  creates_region : Request
  binds_compositor : Option ℕ → Request
  leaves : Request

unfoldable pub step : Request → Handler
unfolding subsurface_destroy subsurface_set_position subsurface_place_above subsurface_place_below
    subsurface_set_sync subsurface_set_desync subcompositor_destroy subcompositor_get_subsurface
    bind_subcompositor surface_destroy surface_commit compositor_create_surface
    compositor_create_region bind_compositor handle_client_destroy
step (destroys_subsurface r) = subsurface_destroy r
step (positions x y) = subsurface_set_position x y
step (places_above b) = subsurface_place_above b
step (places_below b) = subsurface_place_below b
step syncs = subsurface_set_sync
step desyncs = subsurface_set_desync
step (destroys_subcompositor r) = subcompositor_destroy r
step (gets_subsurface u p c) = subcompositor_get_subsurface u p c
step (binds_subcompositor c) = bind_subcompositor c
step (destroys_surface r) = surface_destroy r
step commits = surface_commit
step (creates_surface c) = compositor_create_surface c
step creates_region = compositor_create_region
step (binds_compositor c) = bind_compositor c
step leaves = handle_client_destroy

-- `struct subsurface_server_state state = {0};`
abbrev pub init : SubsurfaceServer
init = record {
  parent = none;
  child = none;
  surfaces_created = 0;
  surfaces_destroyed = 0;
  surface_commits = 0;
  subsurface_created = false;
  positioned = false;
  above = false;
  below = false;
  sync = false;
  desync = false;
  subsurface_destroyed = false;
  subcompositor_destroyed = false;
}

-- The verdict after the event loop.
unfoldable pub succeeded : SubsurfaceServer → Bool
succeeded s =
    (s.surfaces_created == 2)
    && ((s.surfaces_destroyed == 2)
        && ((s.surface_commits == 3)
            && (s.subsurface_created
                && (s.positioned
                    && (s.above
                        && (s.below
                            && (s.sync
                                && (s.desync
                                    && (s.subsurface_destroyed && s.subcompositor_destroyed)))))))))

unfoldable pub subsurface_server_fd : Setup → List Request → Outcome
subsurface_server_fd env rs = launch env (succeeded (History.run step init rs))

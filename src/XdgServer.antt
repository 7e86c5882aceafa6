-- ===== src/XdgServer.antt =====
-- src/bench/xdg-interop-server.c: the peer of the xdg-shell and presentation-time check.
pub mod Order
pub mod Feedback
mod Tests
use wayring.Base.{
  ◌==◌, if◌then◌else◌, ℕ, ◌+◌, Bool, true, false, ◌&&◌, Option, none, some, List, [], ◌∷◌,
}
use wayring.Bench.{
  Effect, send, post_implementation_error, post_no_memory, terminate, destroy_resource, Step,
  reject, make,
}
use wayring.Bench.History
use wayring.Bench.Launch.{Setup, Outcome, launch}

-- `struct server_state`, without libwayland's own handles.
pub record XdgServer : Type 0 where
  pub ponged : Bool
  pub configured : Bool
  pub toplevel_destroyed : Bool
  pub xdg_surface_destroyed : Bool
  pub surface_destroyed : Bool
  pub wm_base_destroyed : Bool
  pub presentation_destroyed : Bool
  pub feedback_count : ℕ

-- The events that it sends, each with the resource that sends it.
pub data Event : Type 0 where
  presented : ℕ → List ℕ → Event
  discarded : ℕ → Event
  clock_id : ℕ → ℕ → Event
  toplevel_configure : ℕ → ℕ → ℕ → Event
  surface_configure : ℕ → ℕ → Event
  ping : ℕ → ℕ → Event

abbrev pub Handler : Type 0
Handler = XdgServer → Step XdgServer Event

-- The answer to the feedback that is the `n`th, counted from 1; the flags of the first are
-- WP_PRESENTATION_FEEDBACK_KIND_VSYNC, which is 1.
abbrev pub feedback_answer : ℕ → ℕ → Effect Event
feedback_answer feedback n =
    if n == 1
    then send (presented feedback (1 ∷ 2 ∷ 3 ∷ 16666667 ∷ 4 ∷ 5 ∷ 1 ∷ []))
    else if n == 2
    then send (discarded feedback)
    else post_implementation_error

presentation_feedback : Option ℕ → Handler
presentation_feedback none s = (s, post_no_memory ∷ [])
presentation_feedback (some feedback) s = (
  record s { feedback_count = s.feedback_count + 1 },
  feedback_answer feedback (s.feedback_count + 1) ∷ destroy_resource feedback ∷ [],
)

presentation_destroy : ℕ → Handler
presentation_destroy resource s =
    (record s { presentation_destroyed = true }, destroy_resource resource ∷ [])

bind_presentation : Option ℕ → Handler
bind_presentation none s = (s, post_no_memory ∷ [])
bind_presentation (some resource) s = (s, send (clock_id resource 1) ∷ [])

surface_commit : Handler
surface_commit s = (s, [])

surface_destroy : ℕ → Handler
surface_destroy resource s = (
  if s.xdg_surface_destroyed then record s { surface_destroyed = true } else s,
  destroy_resource resource ∷ [],
)

compositor_create_surface : Option ℕ → Handler
compositor_create_surface created s = make created s

compositor_create_region : Handler
compositor_create_region s = reject s

bind_compositor : Option ℕ → Handler
bind_compositor created s = make created s

toplevel_destroy : ℕ → Handler
toplevel_destroy resource s =
    (record s { toplevel_destroyed = true }, destroy_resource resource ∷ [])

xdg_surface_get_toplevel : ℕ → Option ℕ → Handler
xdg_surface_get_toplevel resource none s = (s, post_no_memory ∷ [])
xdg_surface_get_toplevel resource (some toplevel) s =
    (s, send (toplevel_configure toplevel 0 0) ∷ send (surface_configure resource 77) ∷ [])

xdg_surface_ack_configure : ℕ → Handler
xdg_surface_ack_configure serial s =
    (if serial == 77 then record s { configured = true } else s, [])

xdg_surface_destroy : ℕ → Handler
xdg_surface_destroy resource s = (
  if s.toplevel_destroyed then record s { xdg_surface_destroyed = true } else s,
  destroy_resource resource ∷ [],
)

wm_base_create_positioner : Handler
wm_base_create_positioner s = reject s

wm_base_get_xdg_surface : Option ℕ → Handler
wm_base_get_xdg_surface created s = make created s

wm_base_pong : ℕ → Handler
wm_base_pong serial s = (if serial == 41 then record s { ponged = true } else s, [])

wm_base_destroy : ℕ → Handler
wm_base_destroy resource s = (
  if s.surface_destroyed then record s { wm_base_destroyed = true } else s,
  destroy_resource resource ∷ [],
)

bind_wm_base : Option ℕ → Handler
bind_wm_base none s = (s, post_no_memory ∷ [])
bind_wm_base (some resource) s = (s, send (ping resource 41) ∷ [])

handle_client_destroy : Handler
handle_client_destroy s = (s, terminate ∷ [])

-- The requests that the interface tables route to the handlers.
pub data Request : Type 0 where
  asks_feedback : Option ℕ → Request
  destroys_presentation : ℕ → Request
  binds_presentation : Option ℕ → Request
  commits : Request
  destroys_surface : ℕ → Request
  creates_surface : Option ℕ → Request
  creates_region : Request
  binds_compositor : Option ℕ → Request
  destroys_toplevel : ℕ → Request
  gets_toplevel : ℕ → Option ℕ → Request
  acks_configure : ℕ → Request
  destroys_xdg_surface : ℕ → Request
  creates_positioner : Request
  gets_xdg_surface : Option ℕ → Request
  pongs : ℕ → Request
  destroys_wm_base : ℕ → Request
  binds_wm_base : Option ℕ → Request
  leaves : Request

unfoldable pub step : Request → Handler
unfolding presentation_feedback presentation_destroy bind_presentation surface_commit
    surface_destroy compositor_create_surface compositor_create_region bind_compositor
    toplevel_destroy xdg_surface_get_toplevel xdg_surface_ack_configure xdg_surface_destroy
    wm_base_create_positioner wm_base_get_xdg_surface wm_base_pong wm_base_destroy bind_wm_base
    handle_client_destroy
step (asks_feedback c) = presentation_feedback c
step (destroys_presentation r) = presentation_destroy r
step (binds_presentation c) = bind_presentation c
step commits = surface_commit
step (destroys_surface r) = surface_destroy r
step (creates_surface c) = compositor_create_surface c
step creates_region = compositor_create_region
step (binds_compositor c) = bind_compositor c
step (destroys_toplevel r) = toplevel_destroy r
step (gets_toplevel r c) = xdg_surface_get_toplevel r c
step (acks_configure n) = xdg_surface_ack_configure n
step (destroys_xdg_surface r) = xdg_surface_destroy r
step creates_positioner = wm_base_create_positioner
step (gets_xdg_surface c) = wm_base_get_xdg_surface c
step (pongs n) = wm_base_pong n
step (destroys_wm_base r) = wm_base_destroy r
step (binds_wm_base c) = bind_wm_base c
step leaves = handle_client_destroy

-- `struct server_state state = {0};`
abbrev pub init : XdgServer
init = record {
  ponged = false;
  configured = false;
  toplevel_destroyed = false;
  xdg_surface_destroyed = false;
  surface_destroyed = false;
  wm_base_destroyed = false;
  presentation_destroyed = false;
  feedback_count = 0;
}

-- The verdict after the event loop.
unfoldable pub succeeded : XdgServer → Bool
succeeded s =
    s.ponged
    && (s.configured
        && (s.toplevel_destroyed
            && (s.xdg_surface_destroyed
                && (s.surface_destroyed
                    && (s.wm_base_destroyed
                        && (s.presentation_destroyed && (s.feedback_count == 2)))))))

unfoldable pub xdg_server_fd : Setup → List Request → Outcome
xdg_server_fd env rs = launch env (succeeded (History.run step init rs))

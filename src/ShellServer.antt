-- ===== src/ShellServer.antt =====
-- src/bench/shell-interop-server.c: the peer of the wl_shell check.
pub mod Verdict
mod Tests
use wayring.Base.{◌==◌, if◌then◌else◌, ℕ, Bool, true, false, ◌&&◌, Option, List, [], ◌∷◌}
use Prim.Native.String.{String}
use wayring.Bench.{send, post_no_memory, terminate, destroy_resource, Step, is_null, reject, make}
use wayring.Bench.History
use wayring.Bench.Launch.{Setup, Outcome, launch}
use wayring.Bench.Texts.{streq}

-- `struct shell_server_state`, without libwayland's own handles.
pub record ShellServer : Type 0 where
  pub shell_surface_created : Bool
  pub pong : Bool
  pub title : Bool
  pub class_name : Bool
  pub toplevel : Bool
  pub surface_destroyed : Bool

-- The events that it sends, each with the resource that sends it.
pub data Event : Type 0 where
  ping : Option ℕ → ℕ → Event
  configure : Option ℕ → ℕ → ℕ → ℕ → Event
  popup_done : Option ℕ → Event

abbrev pub Handler : Type 0
Handler = ShellServer → Step ShellServer Event

shell_surface_pong : ℕ → Handler
shell_surface_pong serial s = (if serial == 41 then record s { pong = true } else s, [])

shell_surface_move : Handler
shell_surface_move s = reject s

shell_surface_resize : Handler
shell_surface_resize s = reject s

shell_surface_set_toplevel : Handler
shell_surface_set_toplevel s = (record s { toplevel = true }, [])

shell_surface_set_transient : Handler
shell_surface_set_transient s = reject s

shell_surface_set_fullscreen : Handler
shell_surface_set_fullscreen s = reject s

shell_surface_set_popup : Handler
shell_surface_set_popup s = reject s

shell_surface_set_maximized : Handler
shell_surface_set_maximized s = reject s

shell_surface_set_title : String → Handler
shell_surface_set_title title s =
    (if streq title "wayring-shell" then record s { title = true } else s, [])

shell_surface_set_class : String → Handler
shell_surface_set_class class_name s =
    (if streq class_name "wayring" then record s { class_name = true } else s, [])

-- WL_SHELL_SURFACE_RESIZE_BOTTOM_RIGHT is 10.
shell_get_shell_surface : Option ℕ → Handler
shell_get_shell_surface created s = if is_null created then (s, post_no_memory ∷ []) else (
  record s { shell_surface_created = true },
  send (ping created 41) ∷ send (configure created 10 800 600) ∷ send (popup_done created) ∷ [],
)

bind_shell : Option ℕ → Handler
bind_shell created s = make created s

surface_destroy : ℕ → Handler
surface_destroy resource s = (record s { surface_destroyed = true }, destroy_resource resource ∷ [])

compositor_create_surface : Option ℕ → Handler
compositor_create_surface created s = make created s

compositor_create_region : Handler
compositor_create_region s = reject s

bind_compositor : Option ℕ → Handler
bind_compositor created s = make created s

client_destroyed : Handler
client_destroyed s = (s, terminate ∷ [])

-- The requests that the interface tables route to the handlers.
pub data Request : Type 0 where
  pongs : ℕ → Request
  moves resizes sets_toplevel sets_transient sets_fullscreen sets_popup sets_maximized : Request
  sets_title sets_class : String → Request
  gets_shell_surface : Option ℕ → Request
  binds_shell : Option ℕ → Request
  destroys_surface : ℕ → Request
  creates_surface : Option ℕ → Request
  creates_region : Request
  binds_compositor : Option ℕ → Request
  leaves : Request

unfoldable pub step : Request → Handler
unfolding shell_surface_pong shell_surface_move shell_surface_resize shell_surface_set_toplevel
    shell_surface_set_transient shell_surface_set_fullscreen shell_surface_set_popup
    shell_surface_set_maximized shell_surface_set_title shell_surface_set_class
    shell_get_shell_surface bind_shell surface_destroy compositor_create_surface
    compositor_create_region bind_compositor client_destroyed
step (pongs n) = shell_surface_pong n
step moves = shell_surface_move
step resizes = shell_surface_resize
step sets_toplevel = shell_surface_set_toplevel
step sets_transient = shell_surface_set_transient
step sets_fullscreen = shell_surface_set_fullscreen
step sets_popup = shell_surface_set_popup
step sets_maximized = shell_surface_set_maximized
step (sets_title t) = shell_surface_set_title t
step (sets_class c) = shell_surface_set_class c
step (gets_shell_surface c) = shell_get_shell_surface c
step (binds_shell c) = bind_shell c
step (destroys_surface r) = surface_destroy r
step (creates_surface c) = compositor_create_surface c
step creates_region = compositor_create_region
step (binds_compositor c) = bind_compositor c
step leaves = client_destroyed

-- `struct shell_server_state state = {.display = …};`
abbrev pub init : ShellServer
init = record {
  shell_surface_created = false;
  pong = false;
  title = false;
  class_name = false;
  toplevel = false;
  surface_destroyed = false;
}

-- The verdict after the event loop.
unfoldable pub succeeded : ShellServer → Bool
succeeded s =
    s.shell_surface_created
    && (s.pong && (s.title && (s.class_name && (s.toplevel && s.surface_destroyed))))

unfoldable pub shell_server_fd : Setup → List Request → Outcome
shell_server_fd env rs = launch env (succeeded (History.run step init rs))

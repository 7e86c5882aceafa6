-- ===== src/ShellClient.antt =====
-- src/bench/shell-interop-client.c: the client of the wl_shell check.
pub mod Session
mod Tests
use wayring.Base.{
  ◌==◌, if◌then◌else◌, ℕ, Bool, true, false, not, ◌&&◌, ◌||◌, Option, none, some, List, [], ◌∷◌,
  ◌++◌,
}
use Prim.Native.String.{String}
use wayring.Bench.{is_null}
use wayring.Bench.History
use wayring.Bench.Texts.{streq}

-- `struct shell_client_state`
pub record ShellClient : Type 0 where
  pub compositor : Option ℕ
  pub shell : Option ℕ
  pub ping : Bool
  pub configure : Bool
  pub popup_done : Bool

-- What the client asks of the server and of the kernel.
pub data Call : Type 0 where
  create_surface get_shell_surface set_toplevel : Call
  set_title set_class : String → Call
  pong : ℕ → Call
  shell_surface_destroy surface_destroy shell_destroy compositor_destroy : ℕ → Call
  registry_destroy flush disconnect : Call

abbrev pub Handler : Type 0
Handler = ShellClient → ShellClient × List Call

shell_surface_ping : ℕ → Handler
shell_surface_ping serial c =
    if serial == 41 then (record c { ping = true }, pong serial ∷ []) else (c, [])

-- WL_SHELL_SURFACE_RESIZE_BOTTOM_RIGHT is 10.
shell_surface_configure : ℕ → ℕ → ℕ → Handler
shell_surface_configure edges width height c = (
  if (edges == 10) && ((width == 800) && (height == 600)) then record c { configure = true } else c,
  [],
)

shell_surface_popup_done : Handler
shell_surface_popup_done c = (record c { popup_done = true }, [])

-- `bound` is what wl_registry_bind returned.
registry_global : String → Option ℕ → Handler
registry_global interface bound c = (
  if streq interface "wl_compositor"
      then record c { compositor = bound }
      else if streq interface "wl_shell"
      then record c { shell = bound }
      else c,
  [],
)

registry_global_remove : Handler
registry_global_remove c = (c, [])

-- The events that the listeners route to the handlers.
pub data Event : Type 0 where
  pings : ℕ → Event
  configures : ℕ → ℕ → ℕ → Event
  dismisses : Event
  global : String → Option ℕ → Event
  global_remove : Event

unfoldable pub step : Event → Handler
unfolding shell_surface_ping shell_surface_configure shell_surface_popup_done registry_global
    registry_global_remove
step (pings serial) = shell_surface_ping serial
step (configures edges width height) = shell_surface_configure edges width height
step dismisses = shell_surface_popup_done
step (global interface bound) = registry_global interface bound
step global_remove = registry_global_remove

-- `struct shell_client_state state = {0};`
abbrev pub init : ShellClient
init = record {
  compositor = none;
  shell = none;
  ping = false;
  configure = false;
  popup_done = false;
}

-- What a wl_display_roundtrip dispatches, and whether it succeeds.
abbrev pub Roundtrip : Type 0
Roundtrip = List Event × Bool

-- What the calls of `shell_client_fd` return.
pub record World : Type 0 where
  pub connected : Bool
  pub first : Roundtrip
  pub surface : Option ℕ
  pub shell_surface : Option ℕ
  pub second : Roundtrip
  pub third : Roundtrip

-- The client in the middle of its run: what it has made, and what it did.
pub record Running : Type 0 where
  pub state : ShellClient
  pub made_surface : Option ℕ
  pub made_shell_surface : Option ℕ
  pub done : List Call
  pub status : Bool

-- The events of a roundtrip, in order.
abbrev pub dispatch : List Event → Running → Running
dispatch es p = record p {
  state = History.run step p.state es;
  done = p.done ++ History.calls step p.state es;
}

abbrev pub started : Running
started = record {
  state = init;
  made_surface = none;
  made_shell_surface = none;
  done = [];
  status = false;
}

abbrev pub held : (ℕ → Call) → Option ℕ → List Call
held destroy none = []
held destroy (some r) = destroy r ∷ []

abbrev pub has_globals : ShellClient → Bool
has_globals c = not (is_null c.compositor) && not (is_null c.shell)

abbrev pub passes : ShellClient → Bool
passes c = c.ping && (c.configure && c.popup_done)

abbrev pub makes : World → Running → Running
makes w p = record p {
  made_surface = w.surface;
  made_shell_surface = w.shell_surface;
  done = p.done ++ (create_surface ∷ get_shell_surface ∷ []);
}

abbrev pub asks : Running → Running
asks p = record p {
  done = p.done ++ (set_title "wayring-shell" ∷ set_class "wayring" ∷ set_toplevel ∷ []);
}

-- The shell surface and its surface are destroyed and forgotten.
abbrev pub destroys : Running → Running
destroys p = record p {
  made_surface = none;
  made_shell_surface = none;
  done =
      p.done
      ++ (held shell_surface_destroy p.made_shell_surface ++ held surface_destroy p.made_surface);
}

-- The run up to the label `cleanup`.
unfoldable pub before_cleanup : World → Running
before_cleanup w =
    let p = dispatch w.first.0 started in
    let made = makes w p in
    let q = dispatch w.second.0 (asks made) in
    let r = dispatch w.third.0 (destroys q) in
    if not w.first.1 || not (has_globals p.state)
    then p
    else if is_null w.surface || is_null w.shell_surface
    then made
    else if not w.second.1 || not (passes q.state)
    then q
    else record r { status = w.third.1 }

-- The label `cleanup`.
unfoldable pub cleanup : Running → List Call
cleanup p =
    held shell_surface_destroy p.made_shell_surface
    ++ (held surface_destroy p.made_surface
        ++ (held shell_destroy p.state.shell
            ++ (held compositor_destroy p.state.compositor
                ++ (registry_destroy ∷ flush ∷ disconnect ∷ []))))

-- The status, EXIT_SUCCESS being true, and the calls.
unfoldable pub shell_client_fd : World → Bool × List Call
shell_client_fd w =
    let p = before_cleanup w in if w.connected then (p.status, p.done ++ cleanup p) else (false, [])

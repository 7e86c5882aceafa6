-- ===== src/SubsurfaceClient.antt =====
-- src/bench/subsurface-interop-client.c: the client of the subsurface check.
pub mod Session
mod Tests
use wayring.Base.{
  if◌then◌else◌, ℕ, Bool, false, not, ◌&&◌, ◌||◌, Option, none, some, List, [], ◌∷◌, ◌++◌,
}
use Prim.Native.String.{String}
use wayring.Bench.{is_null, minus}
use wayring.Bench.History
use wayring.Bench.Texts.{streq}

-- `struct subsurface_client_state`
pub record SubsurfaceClient : Type 0 where
  pub compositor : Option ℕ
  pub subcompositor : Option ℕ

-- What the client asks of the server and of the kernel. A surface or a subsurface that is made has what
-- the call returns.
pub data Call : Type 0 where
  create_surface : Option ℕ → Call
  get_subsurface : Option ℕ → Option ℕ → Option ℕ → Call
  set_position : ℕ → ℕ → Call
  place_above place_below : Option ℕ → Call
  commit : Option ℕ → Call
  set_sync set_desync : Call
  subsurface_destroy surface_destroy subcompositor_destroy compositor_destroy : ℕ → Call
  registry_destroy flush disconnect : Call

abbrev pub Handler : Type 0
Handler = SubsurfaceClient → SubsurfaceClient × List Call

-- `bound` is what wl_registry_bind returned.
registry_global : String → Option ℕ → Handler
registry_global interface bound c = (
  if streq interface "wl_compositor"
      then record c { compositor = bound }
      else if streq interface "wl_subcompositor"
      then record c { subcompositor = bound }
      else c,
  [],
)

registry_global_remove : Handler
registry_global_remove c = (c, [])

-- The events that the listener routes to the handlers.
pub data Event : Type 0 where
  global : String → Option ℕ → Event
  global_remove : Event

unfoldable pub step : Event → Handler
unfolding registry_global registry_global_remove
step (global interface bound) = registry_global interface bound
step global_remove = registry_global_remove

-- `struct subsurface_client_state state = {0};`
abbrev pub init : SubsurfaceClient
init = record { compositor = none; subcompositor = none }

-- What a wl_display_roundtrip dispatches, and whether it succeeds.
abbrev pub Roundtrip : Type 0
Roundtrip = List Event × Bool

-- What the calls of `subsurface_client_fd` return.
pub record World : Type 0 where
  pub connected : Bool
  pub first : Roundtrip
  pub parent : Option ℕ
  pub child : Option ℕ
  pub subsurface : Option ℕ
  pub second : Roundtrip

-- The client in the middle of its run: what it has made, and what it did.
pub record Running : Type 0 where
  pub state : SubsurfaceClient
  pub made_parent : Option ℕ
  pub made_child : Option ℕ
  pub made_subsurface : Option ℕ
  pub done : List Call
  pub status : Bool

-- The events of a roundtrip, in order.
abbrev pub dispatch : List Event → Running → Running
dispatch es p = record p {
  state = History.run step p.state es;
  done = p.done ++ History.calls step p.state es;
}

abbrev pub started : Running
started = record {
  state = init;
  made_parent = none;
  made_child = none;
  made_subsurface = none;
  done = [];
  status = false;
}

abbrev pub held : (ℕ → Call) → Option ℕ → List Call
held destroy none = []
held destroy (some r) = destroy r ∷ []

abbrev pub has_globals : SubsurfaceClient → Bool
has_globals c = not (is_null c.compositor) && not (is_null c.subcompositor)

abbrev pub makes_surfaces : World → Running → Running
makes_surfaces w p = record p {
  made_parent = w.parent;
  made_child = w.child;
  done = p.done ++ (create_surface w.parent ∷ create_surface w.child ∷ []);
}

abbrev pub makes_subsurface : World → Running → Running
makes_subsurface w p = record p {
  made_subsurface = w.subsurface;
  done = p.done ++ (get_subsurface w.child w.parent w.subsurface ∷ []);
}

-- What is asked of the subsurface, whose parent is destroyed and forgotten at the end.
abbrev pub asks : World → Running → Running
asks w p = record p {
  made_parent = none;
  done =
      p.done
      ++ (set_position (minus 7) 11
          ∷ place_above w.parent
          ∷ place_below w.parent
          ∷ commit w.child
          ∷ commit w.parent
          ∷ set_sync
          ∷ commit w.child
          ∷ set_desync
          ∷ held surface_destroy w.parent);
}

-- The run up to the label `cleanup`.
unfoldable pub before_cleanup : World → Running
before_cleanup w =
    let p = dispatch w.first.0 started in
    let surfaces = makes_surfaces w p in
    let subsurface = makes_subsurface w surfaces in
    let q = dispatch w.second.0 (asks w subsurface) in
    if not w.first.1 || not (has_globals p.state)
    then p
    else if is_null w.parent || is_null w.child
    then surfaces
    else if is_null w.subsurface
    then subsurface
    else record q { status = w.second.1 }

-- The label `cleanup`.
unfoldable pub cleanup : Running → List Call
cleanup p =
    held subsurface_destroy p.made_subsurface
    ++ (held surface_destroy p.made_child
        ++ (held surface_destroy p.made_parent
            ++ (held subcompositor_destroy p.state.subcompositor
                ++ (held compositor_destroy p.state.compositor
                    ++ (registry_destroy ∷ flush ∷ disconnect ∷ [])))))

-- The status, EXIT_SUCCESS being true, and the calls.
unfoldable pub subsurface_client_fd : World → Bool × List Call
subsurface_client_fd w =
    let p = before_cleanup w in if w.connected then (p.status, p.done ++ cleanup p) else (false, [])

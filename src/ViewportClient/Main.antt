-- ===== src/ViewportClient/Main.antt =====
-- src/bench/viewport-benchmark.c, the client: `viewport_benchmark_client_fd`.
use wayring.Base.{
  ◌==◌, if◌then◌else◌, ℕ, ◌+◌, ◌-◌, ◌^◌, Bool, true, false, not, ◌||◌, Option, none, some, List, [],
  ◌∷◌, ◌++◌,
}
use Prim.Native.String.{String}
use wayring.Bench.{is_null}
use wayring.Bench.History.{run, calls}
use wayring.Bench.Options.{u64}
use wayring.Bench.Texts.{streq}
use wayring.ViewportServer.{
  Request, binds_compositor, binds_viewporter, creates_surface, gets_viewport, destroys_viewport,
  destroys_surface, destroys_viewporter, leaves,
}
use wayring.ViewportClient.{send_operations}

-- `struct client_state`
pub record ViewportClient : Type 0 where
  pub compositor : Option ℕ
  pub viewporter : Option ℕ

-- `bound` is what wl_registry_bind returned, whose request the server gets.
abbrev pub Handler : Type 0
Handler = ViewportClient → ViewportClient × List Request

registry_global : String → Option ℕ → Handler
registry_global interface bound c =
    if streq interface "wl_compositor"
    then (record c { compositor = bound }, binds_compositor bound ∷ [])
    else if streq interface "wp_viewporter"
    then (record c { viewporter = bound }, binds_viewporter bound ∷ [])
    else (c, [])

registry_global_remove : Handler
registry_global_remove c = (c, [])

pub data Event : Type 0 where
  global : String → Option ℕ → Event
  global_remove : Event

unfoldable pub step : Event → Handler
unfolding registry_global registry_global_remove
step (global interface bound) = registry_global interface bound
step global_remove = registry_global_remove

-- `struct client_state state = {0};`
abbrev pub init : ViewportClient
init = record { compositor = none; viewporter = none }

-- What the calls of `viewport_benchmark_client_fd` return: the registry with its listener, the events and
-- the success of the first roundtrip, the surface and the viewport, whether the second roundtrip and each
-- of those behind it succeed, and what the clock tells before and behind the operations.
pub record World : Type 0 where
  pub connected : Bool
  pub listening : Bool
  pub globals : List Event
  pub first : Bool
  pub surface : Option ℕ
  pub viewport : Option ℕ
  pub second : Bool
  pub answers : ℕ → Bool
  pub start : Option ℕ
  pub finish : Option ℕ

-- `struct viewport_benchmark_result`
pub record ViewportResult : Type 0 where
  pub elapsed_ns : ℕ
  pub operations : ℕ

-- The run at the label `cleanup`: what it holds, the requests it made, and its result if it succeeded.
pub record Running : Type 0 where
  pub state : ViewportClient
  pub held_surface : Option ℕ
  pub held_viewport : Option ℕ
  pub requests : List Request
  pub result : Option ViewportResult

abbrev pub held : (ℕ → Request) → Option ℕ → List Request
held request none = []
held request (some object) = request object ∷ []

-- The result after the second call, which fails without it or without the clock.
abbrev pub measured : ℕ → Option ℕ → Option ℕ → Bool → Option ViewportResult
measured count none finish success = none
measured count (some s) none success = none
measured count (some s) (some f) false = none
measured count (some s) (some f) true =
    some (record { elapsed_ns = u64 (f + (2 ^ 64 - s)); operations = count })

-- Both calls of `send_operations` with the clock around the second: the requests, and the result.
unfoldable pub measure : (batch warmup count : ℕ) → World → List Request × Option ViewportResult
measure batch warmup count w =
    let first = send_operations batch w.answers warmup 0 in
    let second = send_operations batch w.answers count first.roundtrips in
    if not first.success || is_null w.start
    then (first.requests, none)
    else (first.requests ++ second.requests, measured count w.start w.finish second.success)

-- Behind the first roundtrip, with what wl_compositor_create_surface and wp_viewporter_get_viewport return.
unfoldable pub after_globals :
    (batch warmup count : ℕ) → World → Option ℕ → Option ℕ → Running → Running
after_globals batch warmup count w none viewport p = p
after_globals batch warmup count w (some surface) none p = record p {
  held_surface = some surface;
  requests = p.requests ++ (creates_surface (some surface) ∷ []);
}
after_globals batch warmup count w (some surface) (some viewport) p =
    let viewed = record p {
      held_surface = some surface;
      held_viewport = some viewport;
      requests =
          p.requests
          ++ (creates_surface (some surface) ∷ gets_viewport (some surface) (some viewport) ∷ []);
    } in
    let (sent, result) = measure batch warmup count w in
    if w.second
    then record viewed { requests = viewed.requests ++ sent; result = result }
    else viewed

-- The run up to the label `cleanup`.
unfoldable pub before_cleanup : (batch warmup count : ℕ) → World → Running
before_cleanup batch warmup count w =
    let bare : Running = record {
      state = init;
      held_surface = none;
      held_viewport = none;
      requests = [];
      result = none;
    } in
    let p = record bare { state = run step init w.globals; requests = calls step init w.globals } in
    if not w.listening
    then bare
    else if not w.first || (is_null p.state.compositor || is_null p.state.viewporter)
    then p
    else after_globals batch warmup count w w.surface w.viewport p

-- The requests of the label `cleanup`. That of the compositor's proxy and the registry's are none.
unfoldable pub cleanup : Running → List Request
cleanup p =
    held destroys_viewport p.held_viewport
    ++ (held destroys_surface p.held_surface
        ++ (held destroys_viewporter p.state.viewporter ++ (leaves ∷ [])))

-- The requests and the result, which stands for EXIT_SUCCESS; the flag is whether there is a result to
-- fill in.
unfoldable pub viewport_benchmark_client_fd :
    (batch warmup count : ℕ) → Bool → World → List Request × Option ViewportResult
viewport_benchmark_client_fd batch warmup count wanted w =
    let p = before_cleanup batch warmup count w in
    if (batch == 0) || (not wanted || not w.connected)
    then ([], none)
    else (p.requests ++ cleanup p, p.result)

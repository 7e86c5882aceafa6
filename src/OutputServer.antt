-- ===== src/OutputServer.antt =====
-- src/bench/output-interop-server.c: the peer of the output check. What it sends depends on the version
-- that the client binds.
pub mod Versions
mod Tests
use wayring.Base.{
  ltb, leb, if◌then◌else◌, ℕ, Bool, true, false, Option, none, some, List, [], ◌∷◌, ◌++◌,
}
use Prim.Native.String.{String}
use wayring.Bench.{Effect, send, post_no_memory, terminate, destroy_resource, Step, minus}
use wayring.Bench.History
use wayring.Bench.Launch.{Setup, Outcome, launch}

-- `struct output_server_state`, without libwayland's own handles.
pub record OutputServer : Type 0 where
  pub output_released : Bool

-- The events that it sends, each with the resource that sends it.
pub data Event : Type 0 where
  geometry : ℕ → List ℕ → String → String → ℕ → Event
  mode : ℕ → ℕ → ℕ → ℕ → ℕ → Event
  scale : ℕ → ℕ → Event
  name description : ℕ → String → Event
  done : ℕ → Event

abbrev pub Handler : Type 0
Handler = OutputServer → Step OutputServer Event

output_release : ℕ → Handler
output_release resource s = (record s { output_released = true }, destroy_resource resource ∷ [])

-- `version < 4 ? (int) version : 4`
abbrev pub bound_version : ℕ → ℕ
bound_version version = if ltb version 4 then version else 4

-- WL_OUTPUT_SUBPIXEL_HORIZONTAL_RGB is 2, WL_OUTPUT_TRANSFORM_90 is 1, and the flags of the mode, current
-- and preferred, are 3. The scale and done events are there since version 2, name and description since
-- version 4.
abbrev pub described : ℕ → ℕ → List (Effect Event)
described resource version =
    (send (geometry resource (minus 10 ∷ 20 ∷ 600 ∷ 340 ∷ 2 ∷ []) "Wayring" "Virtual-1" 1)
      ∷ send (mode resource 3 1920 1080 60000)
      ∷ (if leb 2 version then send (scale resource 2) ∷ [] else []))
    ++ ((if leb 4 version
          then send (name resource "WL-1")
            ∷ send (description resource "Wayring virtual output")
            ∷ []
          else [])
        ++ (if leb 2 version then send (done resource) ∷ [] else []))

bind_output : ℕ → Option ℕ → Handler
bind_output version none s = (s, post_no_memory ∷ [])
bind_output version (some resource) s = (s, described resource (bound_version version))

handle_client_destroy : Handler
handle_client_destroy s = (s, terminate ∷ [])

-- What reaches the server of its client.
pub data Request : Type 0 where
  releases : ℕ → Request
  binds : ℕ → Option ℕ → Request
  leaves : Request

unfoldable pub step : Request → Handler
unfolding output_release bind_output handle_client_destroy
step (releases r) = output_release r
step (binds version c) = bind_output version c
step leaves = handle_client_destroy

-- `struct output_server_state state = {0};`
abbrev pub init : OutputServer
init = record { output_released = false }

-- The verdict after the event loop.
unfoldable pub succeeded : OutputServer → Bool
succeeded s = s.output_released

unfoldable pub output_server_fd : Setup → List Request → Outcome
output_server_fd env rs = launch env (succeeded (History.run step init rs))

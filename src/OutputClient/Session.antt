-- ===== src/OutputClient/Session.antt =====
-- src/bench/output-interop-client.c and src/bench/output-interop-server.c: a run of both.
use wayring.Base.{
  leb, if◌then◌else◌, Bool-cases, All, ℕ, ◌≡◌, refl, ◌∙◌, inl, inr, true, false, Option, none, some,
  List, [], ◌∷◌, ◌++◌, arith,
}
use Prim.{⊥}
use wayring.Bench.{is_null, Effect, send}
use wayring.Bench.Among.{IsAmong, run_among, run_kept}
use wayring.Bench.History.{run, calls}
use wayring.Bench.Routes.{requests}
use wayring.Bench.Texts.{streq}
use wayring.OutputServer as Server
use wayring.OutputServer.{OutputServer, Request, releases, binds}
use wayring.OutputClient.{
  OutputClient, Call, output_release, registry_destroy, flush, disconnect, Event, has_geometry,
  has_mode, is_done, has_scale, is_named, is_described, global, global_remove, step, init, World,
  passes, before_cleanup, cleanup, output_client_fd,
}

-- The events that an event of the server is to the client.
unfoldable pub received : Server.Event → List Event
received (Server.geometry r (x ∷ y ∷ w ∷ h ∷ subpixel ∷ []) maker model transform) =
    has_geometry x y w h subpixel maker model transform ∷ []
received (Server.geometry r _ maker model transform) = []
received (Server.mode r flags w h refresh) = has_mode flags w h refresh ∷ []
received (Server.scale r factor) = has_scale factor ∷ []
received (Server.name r n) = is_named n ∷ []
received (Server.description r d) = is_described d ∷ []
received (Server.done r) = is_done ∷ []

unfoldable pub delivered : List (Effect Server.Event) → List Event
delivered [] = []
delivered (send e ∷ es) = received e ++ delivered es
delivered (_ ∷ es) = delivered es

-- An announced global can be bound, and the output is described by the server only.
unfoldable pub IsHarmless : Event → Type 0
IsHarmless (global interface bound) = is_null bound ≡ false
IsHarmless global_remove = Unit
IsHarmless _ = ⊥

-- What the server sends to a client that binds the output at a version.
abbrev pub description : (version resource : ℕ) → List Event
description version resource =
    delivered (calls Server.step Server.init (binds version (some resource) ∷ []))

abbrev pub HasOutput : OutputClient → Type 0
HasOutput c = is_null c.output ≡ false

step-HasOutput :
    (e : Event) (c : OutputClient) → IsHarmless e → HasOutput c → HasOutput (step e c).0
unfolding step IsHarmless
step-HasOutput (global interface bound) c h o = ground arith
step-HasOutput global_remove c h o = o
step-HasOutput (has_geometry x y w b subpixel maker model t) c h o = absurd h
step-HasOutput (has_mode flags w b refresh) c h o = absurd h
step-HasOutput is_done c h o = absurd h
step-HasOutput (has_scale factor) c h o = absurd h
step-HasOutput (is_named n) c h o = absurd h
step-HasOutput (is_described d) c h o = absurd h

abbrev Unnamed : OutputClient → Type 0
Unnamed c = c.name ≡ false

step-Unnamed : (e : Event) (c : OutputClient) → IsHarmless e → Unnamed c → Unnamed (step e c).0
unfolding step IsHarmless
step-Unnamed (global interface bound) c h o = ground arith
step-Unnamed global_remove c h o = o
step-Unnamed (has_geometry x y w b subpixel maker model t) c h o = absurd h
step-Unnamed (has_mode flags w b refresh) c h o = absurd h
step-Unnamed is_done c h o = absurd h
step-Unnamed (has_scale factor) c h o = absurd h
step-Unnamed (is_named n) c h o = absurd h
step-Unnamed (is_described d) c h o = absurd h

step_passes : (e : Event) (c : OutputClient) → IsHarmless e → passes (step e c).0 ≡ passes c
unfolding step IsHarmless
step_passes (global interface bound) c h = ground arith
step_passes global_remove c h = refl
step_passes (has_geometry x y w b subpixel maker model t) c h = absurd h
step_passes (has_mode flags w b refresh) c h = absurd h
step_passes is_done c h = absurd h
step_passes (has_scale factor) c h = absurd h
step_passes (is_named n) c h = absurd h
step_passes (is_described d) c h = absurd h

-- A description has all that the client waits for from version 4 on.
description_passes :
    (version resource : ℕ) (c : OutputClient)
    → Unnamed c
    → passes (run step c (description version resource)) ≡ leb 4 version
unfolding delivered received step Server.step calls run streq
description_passes version resource c u = elim (Bool-cases (leb 4 version)) [
  | inl four ↦ let bound : Server.bound_version version ≡ 4 = ground arith in rw (four, bound) refl
  | inr less ↦
      let bound : Server.bound_version version ≡ version = ground arith in
      elim (Bool-cases (leb 2 version)) [
        | inl two ↦ rw (less, bound, less, two, u) refl
        | inr one ↦ rw (less, bound, less, one, u) (ground arith)
      ]
]

description-HasOutput :
    (version resource : ℕ) (c : OutputClient)
    → HasOutput c
    → HasOutput (run step c (description version resource))
unfolding delivered received step Server.step calls run streq
description-HasOutput version resource c o = elim (Bool-cases (leb 4 version)) [
  | inl four ↦ let bound : Server.bound_version version ≡ 4 = ground arith in rw bound o
  | inr less ↦
      let bound : Server.bound_version version ≡ version = ground arith in
      elim (Bool-cases (leb 2 version)) [
        | inl two ↦ rw (bound, less, two) o
        | inr one ↦ rw (bound, less, one) o
      ]
]

global-HasOutput :
    (output : ℕ) (c : OutputClient) → HasOutput (run step c (global "wl_output" (some output) ∷ []))
unfolding run step streq
global-HasOutput output c = refl

global-IsHarmless : (output : ℕ) → All IsHarmless (global "wl_output" (some output) ∷ [])
unfolding IsHarmless
global-IsHarmless output = (refl, tt)

-- The requests that the server has of a call, on an output bound at a version. wl_output.release is a
-- request since version 3; a call of it on an older output is refused by libwayland, which ends the
-- connection, as the disconnection that follows it does.
unfoldable pub routed : ℕ → Call → List Request
routed version (output_release r) = if leb 3 version then releases r ∷ [] else []
routed version registry_destroy = []
routed version flush = []
routed version disconnect = Server.leaves ∷ []

cleanup-succeeded :
    (version : ℕ) (o : Option ℕ)
    → is_null o ≡ false
    → Server.succeeded (run Server.step Server.init (requests (routed version) (cleanup o)))
      ≡ leb 3 version
unfolding cleanup routed requests run Server.step Server.succeeded
cleanup-succeeded version none h = absurd (cc)
cleanup-succeeded version (some o) h = elim (Bool-cases (leb 3 version)) [
  | inl three ↦ rw three refl
  | inr less ↦ rw less refl
]

-- An output client whose calls succeed, and whose second roundtrip brings what the server sends to a
-- client that binds the output at a version, succeeds exactly from version 4 on; by its calls the server
-- succeeds exactly from version 3 on.
pub output_status_iff :
    (version output resource : ℕ) (w : World)
    → w.connected ≡ true
    → w.first.1 ≡ true
    → w.second.1 ≡ true
    → IsAmong IsHarmless (global "wl_output" (some output) ∷ []) w.first.0
    → IsAmong IsHarmless (description version resource) w.second.0
    → ((output_client_fd w).0 ≡ leb 4 version)
      × (Server.succeeded
            (run Server.step Server.init (requests (routed version) (output_client_fd w).1))
          ≡ leb 3 version)
unfolding output_client_fd before_cleanup
output_status_iff version output resource w c f s announced described =
    let first = run step init w.first.0 in
    let bound : HasOutput first =
      run_among step IsHarmless (λ c. Unit) HasOutput (λ e c h u. tt) step-HasOutput
        (global "wl_output" (some output) ∷ []) w.first.0 init announced
        (λ c u. global-HasOutput output c) tt in
    let unnamed : Unnamed first =
      run_kept step IsHarmless Unnamed step-Unnamed (global "wl_output" (some output) ∷ [])
        w.first.0 init (global-IsHarmless output) announced refl in
    let passed : passes (run step first w.second.0) ≡ leb 4 version =
      run_among step IsHarmless Unnamed (λ c. passes c ≡ leb 4 version) step-Unnamed
        (λ e c h p. step_passes e c h ∙ p) (description version resource) w.second.0 first described
        (description_passes version resource) unnamed in
    let last : HasOutput (run step first w.second.0) =
      run_among step IsHarmless HasOutput HasOutput step-HasOutput step-HasOutput
        (description version resource) w.second.0 first described
        (description-HasOutput version resource) bound in
    (
      rw (c, f, bound, s, passed) refl,
      rw (c, f, bound) (cleanup-succeeded version (run step first w.second.0).output last),
    )

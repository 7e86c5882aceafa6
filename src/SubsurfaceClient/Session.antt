-- ===== src/SubsurfaceClient/Session.antt =====
-- src/bench/subsurface-interop-client.c and src/bench/subsurface-interop-server.c: a run of both.
use wayring.Base.{
  ◌==◌, if◌then◌else◌, ==_refl, ℕ, ◌≡◌, refl, sym, ap, ◌∙◌, Bool, true, false, not, ◌&&◌, Option,
  none, some, List, [], ◌∷◌, ◌++◌, arith,
}
use wayring.Bench.{is_null, minus, Step}
use wayring.Bench.History
use wayring.Bench.History.{run, calls}
use wayring.Bench.Routes.{requests}
use wayring.SubsurfaceServer as Server
use wayring.SubsurfaceServer.{
  SubsurfaceServer, Request, creates_surface, gets_subsurface, positions, places_above,
  places_below, commits, syncs, desyncs, destroys_subsurface, destroys_surface,
  destroys_subcompositor,
}
use wayring.SubsurfaceClient.{
  SubsurfaceClient, Call, create_surface, get_subsurface, set_position, place_above, place_below,
  commit, set_sync, set_desync, subsurface_destroy, surface_destroy, subcompositor_destroy,
  compositor_destroy, registry_destroy, flush, disconnect, Event, global, global_remove, step, init,
  World, held, has_globals, before_cleanup, cleanup, subsurface_client_fd,
}

abbrev on : (ℕ → Request) → Option ℕ → List Request
on request none = []
on request (some r) = request r ∷ []

-- The requests that reach the server's handlers by a call. The object's id stands for its resource.
unfoldable pub routed : Call → List Request
routed (create_surface made) = creates_surface made ∷ []
routed (get_subsurface none parent made) = []
routed (get_subsurface (some child) parent made) = on (λ p. gets_subsurface child p made) parent
routed (set_position x y) = positions x y ∷ []
routed (place_above sibling) = on places_above sibling
routed (place_below sibling) = on places_below sibling
routed (commit surface) = commits ∷ []
routed set_sync = syncs ∷ []
routed set_desync = desyncs ∷ []
routed (subsurface_destroy r) = destroys_subsurface r ∷ []
routed (surface_destroy r) = destroys_surface r ∷ []
routed (subcompositor_destroy r) = destroys_subcompositor r ∷ []
routed (compositor_destroy r) = []
routed registry_destroy = []
routed flush = []
routed disconnect = Server.leaves ∷ []

abbrev first_state : World → SubsurfaceClient
first_state w = run step init w.first.0

abbrev second_state : World → SubsurfaceClient
second_state w = run step (first_state w) w.second.0

status_of :
    (w : World)
    → (subsurface_client_fd w).0
      ≡ w.connected
        && ((w.first.1 && has_globals (first_state w))
            && ((not (is_null w.parent) && not (is_null w.child))
                && (not (is_null w.subsurface) && w.second.1)))
unfolding subsurface_client_fd before_cleanup
status_of w = ground arith

-- No event of the registry is answered.
calls_none : (es : List Event) (c : SubsurfaceClient) → calls step c es ≡ []
unfolding calls step
calls_none [] c = refl
calls_none (global interface bound ∷ es) c = calls_none es (step (global interface bound) c).0
calls_none (global_remove ∷ es) c = calls_none es c

-- The calls of a run that succeeds.
abbrev whole : (parent child subsurface subcompositor compositor : Option ℕ) → List Call
whole parent child subsurface subcompositor compositor =
    (((create_surface parent ∷ create_surface child ∷ get_subsurface child parent subsurface ∷ [])
        ++ (set_position (minus 7) 11
            ∷ place_above parent
            ∷ place_below parent
            ∷ commit child
            ∷ commit parent
            ∷ set_sync
            ∷ commit child
            ∷ set_desync
            ∷ held surface_destroy parent))
      ++ [])
    ++ (held subsurface_destroy subsurface
        ++ (held surface_destroy child
            ++ (held subcompositor_destroy subcompositor
                ++ (held compositor_destroy compositor
                    ++ (registry_destroy ∷ flush ∷ disconnect ∷ [])))))

calls_of :
    (w : World)
    → w.connected ≡ true
    → (w.first.1 ≡ true) × (has_globals (first_state w) ≡ true)
    → (is_null w.parent ≡ false) × (is_null w.child ≡ false)
    → is_null w.subsurface ≡ false
    → (subsurface_client_fd w).1
      ≡ whole w.parent w.child w.subsurface
          (second_state w).subcompositor
          (second_state w).compositor
unfolding subsurface_client_fd before_cleanup cleanup
calls_of w c (f, g) (u, x) n =
    rw (c, f, g, u, x, n, calls_none w.first.0 init, calls_none w.second.0 (first_state w)) refl

-- The server once the subsurface is made and positioned, and once it is placed.
abbrev made : ℕ → ℕ → SubsurfaceServer
made parent child = record Server.init {
  parent = some parent;
  child = some child;
  surfaces_created = 2;
  subsurface_created = true;
  positioned = true;
}

abbrev placed : ℕ → ℕ → SubsurfaceServer
placed parent child = record (made parent child) { above = true; below = true }

run-made :
    (p c s : ℕ)
    → run Server.step Server.init (
        creates_surface (some p)
        ∷ creates_surface (some c)
        ∷ gets_subsurface c p (some s)
        ∷ positions (minus 7) 11
        ∷ [])
      ≡ made p c
unfolding run Server.step
run-made p c s = rw (==_refl p, ==_refl c) refl

past_test :
    {S E : Type 0} (b : Bool) (stop go : Step S E)
    → b ≡ true
    → (if not b then stop else go).0 ≡ go.0
past_test true stop go e = refl
past_test false stop go e = absurd (cc)

run-above :
    (p c : ℕ)
    → run Server.step (made p c) (places_above p ∷ []) ≡ record (made p c) { above = true }
unfolding run Server.step
run-above p c = past_test (p == p) _ _ (==_refl p)

run-below :
    (p c : ℕ)
    → run Server.step (record (made p c) { above = true }) (places_below p ∷ []) ≡ placed p c
unfolding run Server.step
run-below p c = past_test (p == p) _ _ (==_refl p)

run-placed :
    (p c : ℕ) → run Server.step (made p c) (places_above p ∷ places_below p ∷ []) ≡ placed p c
run-placed p c =
    History.run-append Server.step (made p c) (places_above p ∷ []) (places_below p ∷ [])
    ∙ ap (λ t. run Server.step t (places_below p ∷ [])) (run-above p c)
    ∙ run-below p c

-- What is left of the requests once the subsurface is placed.
abbrev rest : (p c s b : ℕ) → List Request
rest p c s b =
    commits
    ∷ commits
    ∷ syncs
    ∷ commits
    ∷ desyncs
    ∷ destroys_surface p
    ∷ destroys_subsurface s
    ∷ destroys_surface c
    ∷ destroys_subcompositor b
    ∷ Server.leaves
    ∷ []

run-rest : (p c s b : ℕ) → Server.succeeded (run Server.step (placed p c) (rest p c s b)) ≡ true
unfolding run Server.step Server.succeeded
run-rest p c s b = refl

placed_succeeds :
    (p c s b : ℕ)
    → Server.succeeded (
        run Server.step Server.init (
          (creates_surface (some p)
            ∷ creates_surface (some c)
            ∷ gets_subsurface c p (some s)
            ∷ positions (minus 7) 11
            ∷ [])
          ++ ((places_above p ∷ places_below p ∷ []) ++ rest p c s b)))
      ≡ true
placed_succeeds p c s b =
    ap Server.succeeded (
      History.run-append Server.step Server.init _
        ((places_above p ∷ places_below p ∷ []) ++ rest p c s b)
      ∙ ap (λ t. run Server.step t ((places_above p ∷ places_below p ∷ []) ++ rest p c s b))
          (run-made p c s)
      ∙ History.run-append Server.step (made p c) (places_above p ∷ places_below p ∷ [])
          (rest p c s b)
      ∙ ap (λ t. run Server.step t (rest p c s b)) (run-placed p c))
    ∙ run-rest p c s b

whole_succeeds :
    (parent child subsurface subcompositor compositor : Option ℕ)
    → is_null parent ≡ false
    → is_null child ≡ false
    → is_null subsurface ≡ false
    → is_null subcompositor ≡ false
    → Server.succeeded (
        run Server.step Server.init
          (requests routed (whole parent child subsurface subcompositor compositor)))
      ≡ true
unfolding routed requests
whole_succeeds none c s b o d e f g = absurd (cc)
whole_succeeds (some p) none s b o d e f g = absurd (cc)
whole_succeeds (some p) (some c) none b o d e f g = absurd (cc)
whole_succeeds (some p) (some c) (some s) none o d e f g = absurd (cc)
whole_succeeds (some p) (some c) (some s) (some b) none d e f g = placed_succeeds p c s b
whole_succeeds (some p) (some c) (some s) (some b) (some o) d e f g = placed_succeeds p c s b

-- If a run of the subsurface client succeeds, and it has its subcompositor at the end, the server
-- succeeds by its calls.
pub subsurface_both_succeed :
    (w : World)
    → (subsurface_client_fd w).0 ≡ true
    → is_null (run step (run step init w.first.0) w.second.0).subcompositor ≡ false
    → Server.succeeded (run Server.step Server.init (requests routed (subsurface_client_fd w).1))
      ≡ true
subsurface_both_succeed w s n =
    let e = sym (status_of w) ∙ s in
    let c : w.connected ≡ true = ground arith in
    let f : (w.first.1 ≡ true) × (has_globals (first_state w) ≡ true) =
      (ground arith, ground arith) in
    let u : (is_null w.parent ≡ false) × (is_null w.child ≡ false) = (ground arith, ground arith) in
    let m : is_null w.subsurface ≡ false = ground arith in
    ap (λ cs. Server.succeeded (run Server.step Server.init (requests routed cs)))
      (calls_of w c f u m)
    ∙ whole_succeeds w.parent w.child w.subsurface (second_state w).subcompositor
        (second_state w).compositor u.0 u.1 m n

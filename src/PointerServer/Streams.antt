-- ===== src/PointerServer/Streams.antt =====
-- src/bench/pointer-interop-server.c: the events of a pointer, against the protocol of wl_pointer.
use wayring.Base.{◌==◌, if◌then◌else◌, ℕ, ◌≡◌, refl, Option, none, some, List, arith}
use wayring.Bench.Monitors.{watch, watch-calls}
use wayring.Bench.History.{calls}
use wayring.PointerServer.{
  PointerServer, Event, enter, motion, button, axis_source, axis, axis_discrete, axis_value120,
  axis_stop, frame, Request, releases_pointer, gets_pointer, on_surface, step,
}

-- The pointer in whose frame the events are, if they are in one.
abbrev pub on_enter : ℕ → Option ℕ → Option (Option ℕ)
on_enter pointer none = some (some pointer)
on_enter pointer (some p) = none

unfoldable pub inside : ℕ → Option ℕ → Option ℕ → Option (Option ℕ)
inside pointer next none = none
inside pointer next (some p) = if p == pointer then some next else none

-- A frame begins with the pointer's entry and ends with its frame event; between them there are only
-- events of the same pointer.
unfoldable pub see : Option ℕ → Event → Option (Option ℕ)
see m (enter pointer serial surface x y) = on_enter pointer m
see m (motion pointer time x y) = inside pointer (some pointer) m
see m (button pointer serial time b state) = inside pointer (some pointer) m
see m (axis_source pointer source) = inside pointer (some pointer) m
see m (axis pointer time a value) = inside pointer (some pointer) m
see m (axis_discrete pointer a value) = inside pointer (some pointer) m
see m (axis_value120 pointer a value) = inside pointer (some pointer) m
see m (axis_stop pointer time a) = inside pointer (some pointer) m
see m (frame pointer) = inside pointer none m
see m _ = some m

inside_same : (p : ℕ) (next : Option ℕ) → inside p next (some p) ≡ some next
unfolding inside
inside_same p next = ground arith

on_surface_watched :
    (surface created : Option ℕ) → watch see (on_surface surface created) none ≡ some none
unfolding watch see
on_surface_watched none c = refl
on_surface_watched (some s) none = refl
on_surface_watched (some s) (some p) = simp inside_same refl

step_watched : (r : Request) (s : PointerServer) → watch see (step r s).1 none ≡ some none
unfolding step watch see inside
step_watched (gets_pointer c) s = on_surface_watched s.surface c
step_watched (releases_pointer r) s = refl
step_watched _ s = ground arith

-- Over any history the pointer's events keep to frames, each of which is ended before the next request
-- is handled.
pub pointer_watched :
    (rs : List Request) (s : PointerServer) → watch see (calls step s rs) none ≡ some none
pointer_watched rs s = watch-calls see step none step_watched rs s

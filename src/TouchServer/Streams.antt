-- ===== src/TouchServer/Streams.antt =====
-- src/bench/touch-interop-server.c: the events of a touch device, against the protocol of wl_touch.
use wayring.Base.{
  ◌==◌, if◌then◌else◌, ℕ, ◌≡◌, refl, Bool, false, ◌||◌, Option, none, some, List, [], ◌∷◌, arith,
}
use wayring.Bench.Monitors.{watch, watch-calls}
use wayring.Bench.History.{calls}
use wayring.TouchServer.{
  TouchServer, Event, down, motion, shape, orientation, up, cancel, Request, releases_touch,
  gets_touch, on_surface, step,
}

-- The touch device and its points that are down, of which the last is told first.
abbrev pub Points : Type 0
Points = Option ℕ × List ℕ

abbrev pub is_in : ℕ → List ℕ → Bool
is_in id [] = false
is_in id (p ∷ ps) = (p == id) || is_in id ps

abbrev pub without : ℕ → List ℕ → List ℕ
without id [] = []
without id (p ∷ ps) = if p == id then ps else p ∷ without id ps

abbrev pub on_down : ℕ → List ℕ → Option (List ℕ)
on_down id ps = if is_in id ps then none else some (id ∷ ps)

abbrev pub on_point : ℕ → List ℕ → Option (List ℕ)
on_point id ps = if is_in id ps then some ps else none

abbrev pub on_up : ℕ → List ℕ → Option (List ℕ)
on_up id ps = if is_in id ps then some (without id ps) else none

-- A point goes down only while it is up; it moves, changes its shape and goes up only while it is
-- down; a cancel ends all points.
unfoldable pub see : List ℕ → Event → Option (List ℕ)
see ps (down touch serial time surface id x y) = on_down id ps
see ps (motion touch time id x y) = on_point id ps
see ps (shape touch id major minor) = on_point id ps
see ps (orientation touch id angle) = on_point id ps
see ps (up touch serial time id) = on_up id ps
see ps (cancel touch) = some []
see ps _ = some ps

on_surface_watched :
    (surface created : Option ℕ) → watch see (on_surface surface created) [] ≡ some []
unfolding watch see
on_surface_watched none c = refl
on_surface_watched (some s) none = refl
on_surface_watched (some s) (some t) = refl

step_watched : (r : Request) (s : TouchServer) → watch see (step r s).1 [] ≡ some []
unfolding step watch see
step_watched (gets_touch c) s = on_surface_watched s.surface c
step_watched (releases_touch r) s = refl
step_watched _ s = ground arith

-- Over any history the touch events keep to the protocol, and at the end no point is left down.
pub touch_watched : (rs : List Request) (s : TouchServer) → watch see (calls step s rs) [] ≡ some []
touch_watched rs s = watch-calls see step [] step_watched rs s

-- ===== src/DmabufServer/Planes.antt =====
-- src/bench/dmabuf-interop-server.c: the descriptors of the planes.
use wayring.Base.{ℕ, ◌+◌, ◌≡◌, refl, sym, ap₂, ◌∙◌, List, [], ◌∷◌, arith}
use wayring.Bench.Descriptors.{count, closes, closes-append}
use wayring.Bench.History.{calls}
use wayring.DmabufServer.{DmabufServer, Request, adds, destroys_buffer, Event, step}

-- The descriptors that reach the server.
unfoldable pub planes : List Request → List ℕ
planes [] = []
planes (adds fd flags p o st hi lo ∷ rs) = fd ∷ planes rs
planes (_ ∷ rs) = planes rs

abbrev plane_of : Request → List ℕ
plane_of (adds fd flags p o st hi lo) = fd ∷ []
plane_of _ = []

planes_split :
    (fd : ℕ) (r : Request) (rs : List Request)
    → count fd (planes (r ∷ rs)) ≡ count fd (plane_of r) + count fd (planes rs)
unfolding planes count
planes_split fd (adds x flags p o st hi lo) rs = omega arith
planes_split fd _ rs = omega arith

step-closes :
    (fd : ℕ) (r : Request) (s : DmabufServer) → closes fd (step r s).1 ≡ count fd (plane_of r)
unfolding step closes count
step-closes fd (destroys_buffer r) s = ground arith
step-closes fd _ s = ground arith

nothing : (fd : ℕ) → closes {E = Event} fd [] ≡ count fd (planes [])
unfolding closes count planes
nothing fd = refl

-- Over any history the server closes the descriptor of every plane that reaches it, taken or refused,
-- exactly once.
pub planes_closed :
    (fd : ℕ) (rs : List Request) (s : DmabufServer)
    → closes fd (calls step s rs) ≡ count fd (planes rs)
unfolding calls
planes_closed fd [] s = nothing fd
planes_closed fd (r ∷ rs) s =
    closes-append fd (step r s).1 (calls step (step r s).0 rs)
    ∙ ap₂ (◌+◌) (step-closes fd r s) (planes_closed fd rs (step r s).0)
    ∙ sym (planes_split fd r rs)

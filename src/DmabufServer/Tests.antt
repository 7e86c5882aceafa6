-- ===== src/DmabufServer/Tests.antt =====
-- src/bench/dmabuf-interop-server.c: a whole client, and the theorems at it.
use wayring.Base.{ℕ, ◌≡◌, refl, true, none, some, List, [], ◌∷◌, ◌++◌}
use wayring.Bench.Descriptors.{closes, count}
use wayring.Bench.History.{run, calls}
use wayring.DmabufServer.{
  drm_format_argb8888, drm_format_mod_invalid_hi, drm_format_mod_invalid_lo, Request,
  destroys_buffer, destroys_params, destroys_dmabuf, adds, creates, creates_immed, creates_params,
  binds_dmabuf, leaves, step, init, succeeded,
}
use wayring.DmabufServer.Planes.{planes, planes_closed}

abbrev add : ℕ → Request
add fd = adds fd (some 1) 0 0 4 drm_format_mod_invalid_hi drm_format_mod_invalid_lo

abbrev client : List Request
client =
    binds_dmabuf (some 1)
    ∷ creates_params (some 2)
    ∷ add 20
    ∷ creates_immed 1 1 drm_format_argb8888 0 (some 3)
    ∷ creates_params (some 4)
    ∷ add 21
    ∷ creates 4 1 1 drm_format_argb8888 0 (some 5)
    ∷ creates_params (some 6)
    ∷ add 20
    ∷ creates 6 2 1 drm_format_argb8888 0 none
    ∷ destroys_buffer 3
    ∷ destroys_buffer 5
    ∷ destroys_params 2
    ∷ destroys_params 4
    ∷ destroys_params 6
    ∷ destroys_dmabuf 1
    ∷ leaves
    ∷ []

client_succeeds : succeeded (run step init client) ≡ true
unfolding succeeded run step
client_succeeds = refl

-- A plane that is refused is closed too.
planes_closed_example : closes 20 (calls step init (client ++ (adds 20 none 0 0 4 0 0 ∷ []))) ≡ 3
unfolding planes count
planes_closed_example = planes_closed 20 (client ++ (adds 20 none 0 0 4 0 0 ∷ [])) init

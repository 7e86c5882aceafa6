-- ===== src/ShmServer/Tests.antt =====
-- src/bench/shm-interop-server.c: a whole client, and the theorems at it.
use wayring.Base.{◌≡◌, refl, true, some, List, [], ◌∷◌, ◌++◌}
use wayring.Bench.{minus, fixed, refused}
use wayring.Bench.History.{run}
use wayring.ShmServer.{is_complete}
use wayring.ShmServer.Run.{
  Request, create_pool, create_buffer, create_surface, create_region, add, subtract, get_viewport,
  opaque_region, input_region, attach, damage, damage_buffer, buffer_transform, buffer_scale,
  offset, source, destination, frame, commit, init, step, succeeded,
}
use wayring.ShmServer.Causes.{refused_unchanged, success_needs_commit}

abbrev client : List Request
client =
    create_pool 9 4096 (some 1) (some 10)
    ∷ create_buffer 0 2 2 8 0 (some 11)
    ∷ create_surface (some 12)
    ∷ create_region (some 13)
    ∷ add 1 2 3 4
    ∷ subtract 5 6 7 8
    ∷ opaque_region (some 13)
    ∷ input_region (some 13)
    ∷ get_viewport (some 12) (some 14)
    ∷ source (fixed 0) (fixed 0) (fixed 1) (fixed 1)
    ∷ destination 3 4
    ∷ attach (some 11) 0 0
    ∷ damage 1 2 3 4
    ∷ damage_buffer 5 6 7 8
    ∷ buffer_transform 1
    ∷ buffer_scale 2
    ∷ offset 2 (minus 3)
    ∷ frame (some 15)
    ∷ commit
    ∷ Request.viewport_destroyed 14
    ∷ Request.region_destroyed 13
    ∷ Request.surface_destroyed 12
    ∷ Request.buffer_destroyed 11
    ∷ Request.pool_destroyed 10
    ∷ []

client_succeeds : succeeded (run step init client) ≡ true
unfolding succeeded run step init
client_succeeds = refl

-- Without the frame callback the commit is refused.
frameless_commit : refused (step commit init).1 ≡ true
unfolding step init
frameless_commit = refl

refused_unchanged_example : (step commit init).0 ≡ init
refused_unchanged_example = refused_unchanged commit init frameless_commit

success_needs_commit_example :
    (before : List Request) × (after : List Request) × (client ≡ before ++ (commit ∷ after))
    × (is_complete (run step init before) ≡ true)
success_needs_commit_example = success_needs_commit client client_succeeds

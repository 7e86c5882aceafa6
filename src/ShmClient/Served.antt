-- ===== src/ShmClient/Served.antt =====
-- src/bench/shm-interop-server.c: what the server makes of the requests of src/bench/shm-interop-client.c.
use wayring.Base.{
  ◌==◌, ==_refl, ℕ, ◌≡◌, refl, ap, ◌∙◌, true, false, not, ◌||◌, some, List, ◌∷◌, arith,
}
use wayring.Bench.{minus, fixed, Step}
use wayring.Bench.Branches.{if_false, if_true}
use wayring.Bench.History.{run}
use wayring.ShmServer.{ShmServer}
use wayring.ShmServer.Run as Run
use wayring.ShmServer.Run.{
  Request, create_pool, create_buffer, create_surface, get_viewport, create_region, add, subtract,
  attach, damage, opaque_region, input_region, buffer_transform, buffer_scale, source, destination,
  offset, frame, damage_buffer, commit, region_destroyed, viewport_destroyed, surface_destroyed,
  buffer_destroyed, pool_destroyed,
}

-- The server after the surface is made, after its viewport and region, and after each request that names
-- one of them.
module _ (buffer surface viewport region : ℕ) where
  abbrev surfaced : ShmServer
  surfaced = record Run.init {
    pool_created = true;
    buffer = some buffer;
    buffer_created = true;
    surface_created = true;
    surface = some surface;
  }

  abbrev viewed : ShmServer
  viewed = record surfaced { viewport_created = true }

  abbrev bounded : ShmServer
  bounded = record viewed { region = some region; region_added = true; region_subtracted = true }

  abbrev attached : ShmServer
  attached = record bounded { attached = true }

  abbrev opaque : ShmServer
  opaque = record attached { damaged = true; opaque_region_set = true }

  abbrev whole : ShmServer
  whole = record opaque { input_region_set = true }

  unequal : (n : ℕ) → not (n == n) ≡ false
  unequal n = rw (==_refl n) refl

  step-viewed : (Run.step (get_viewport (some surface) (some viewport)) surfaced).0 ≡ viewed
  unfolding Run.step Run.init
  step-viewed =
      ap (λ (r : Step ShmServer _). r.0) (if_false (not (surface == surface)) _ _ (unequal surface))

  step-attached : (Run.step (attach (some buffer) 0 0) bounded).0 ≡ attached
  unfolding Run.step Run.init
  step-attached =
      ap (λ (r : Step ShmServer _). r.0)
        (if_false (not (buffer == buffer) || false) _ _ (ground (arith, unequal buffer)))

  step-opaque :
      (Run.step (opaque_region (some region)) (record attached { damaged = true })).0 ≡ opaque
  unfolding Run.step Run.init
  step-opaque = ap (λ (r : Step ShmServer _). r.0) (if_true (region == region) _ _ (==_refl region))

  step-whole : (Run.step (input_region (some region)) opaque).0 ≡ whole
  unfolding Run.step Run.init
  step-whole = ap (λ (r : Step ShmServer _). r.0) (if_true (region == region) _ _ (==_refl region))

-- The requests of a run that succeeds, from the one that names the viewport's surface on.
module _ (buffer surface viewport region callback pool fd' pool' buffer' : ℕ)
    (ending : List Request) where
  abbrev from_input : List Request
  from_input =
      buffer_transform 1
      ∷ buffer_scale 2
      ∷ source (fixed 0) (fixed 0) (fixed 1) (fixed 1)
      ∷ destination 3 4
      ∷ offset 2 (minus 3)
      ∷ frame (some callback)
      ∷ damage_buffer 5 6 7 8
      ∷ commit
      ∷ region_destroyed region
      ∷ viewport_destroyed viewport
      ∷ surface_destroyed surface
      ∷ buffer_destroyed buffer
      ∷ pool_destroyed pool
      ∷ create_pool fd' 4096 (some 1) (some pool')
      ∷ create_buffer 0 2 2 8 0 (some buffer')
      ∷ ending

  abbrev from_opaque : List Request
  from_opaque = opaque_region (some region) ∷ input_region (some region) ∷ from_input

  abbrev from_attach : List Request
  from_attach = attach (some buffer) 0 0 ∷ damage 1 2 3 4 ∷ from_opaque

  abbrev pub from_viewport : List Request
  from_viewport =
      get_viewport (some surface) (some viewport)
      ∷ create_region (some region)
      ∷ add 1 2 3 4
      ∷ subtract 5 6 7 8
      ∷ from_attach

  abbrev pub from_start : ℕ → List Request
  from_start fd =
      create_pool fd 4096 (some 1) (some pool)
      ∷ create_buffer 0 2 2 8 0 (some buffer)
      ∷ create_surface (some surface)
      ∷ from_viewport

  -- Behind them the server succeeds, if what follows leaves its flags alone.
  pub from_start_succeeds :
      (fd : ℕ)
      → ((s : ShmServer) → Run.succeeded s ≡ true → Run.succeeded (run Run.step s ending) ≡ true)
      → Run.succeeded (run Run.step Run.init (from_start fd)) ≡ true
  unfolding run Run.step Run.succeeded Run.init
  from_start_succeeds fd keeps =
      ap
        (λ t. Run.succeeded (
          run Run.step t
            (create_region (some region) ∷ add 1 2 3 4 ∷ subtract 5 6 7 8 ∷ from_attach)))
        (step-viewed buffer surface viewport region)
      ∙ ap (λ t. Run.succeeded (run Run.step t (damage 1 2 3 4 ∷ from_opaque)))
          (step-attached buffer surface viewport region)
      ∙ ap (λ t. Run.succeeded (run Run.step t (input_region (some region) ∷ from_input)))
          (step-opaque buffer surface viewport region)
      ∙ ap (λ t. Run.succeeded (run Run.step t from_input))
          (step-whole buffer surface viewport region)
      ∙ keeps _ refl

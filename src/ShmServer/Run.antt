-- ===== src/ShmServer/Run.antt =====
-- src/bench/shm-interop-server.c: the requests as libwayland dispatches them, a client's history and
-- the exit status of `shm_server_fd`.
use wayring.Base.{ℕ, Bool, false, ◌&&◌, Option, none, List}
use wayring.Bench.{Step}
use wayring.Bench.History
use wayring.Bench.Launch.{Setup, Outcome, launch}
use wayring.ShmServer.{
  ShmServer, Event, buffer_destroy, pool_create_buffer, pool_destroy, pool_resize, shm_create_pool,
  bind_shm, surface_destroy, surface_attach, surface_damage, surface_frame,
  surface_set_opaque_region, surface_set_input_region, surface_commit, surface_damage_buffer,
  surface_set_buffer_transform, surface_set_buffer_scale, surface_offset, region_destroy,
  region_add, region_subtract, compositor_create_surface, compositor_create_region, bind_other,
  viewport_destroy, viewport_set_source, viewport_set_destination, viewporter_destroy,
  viewporter_get_viewport, handle_shm_client_destroy,
}

-- The members of the interface tables, with the arguments of their handlers.
pub data Request : Type 0 where
  buffer_destroyed : ℕ → Request
  create_buffer : ℕ → ℕ → ℕ → ℕ → ℕ → Option ℕ → Request
  pool_destroyed : ℕ → Request
  resize : Request
  create_pool : ℕ → ℕ → Option ℕ → Option ℕ → Request
  bound_shm : Option ℕ → Request
  surface_destroyed : ℕ → Request
  attach : Option ℕ → ℕ → ℕ → Request
  damage : ℕ → ℕ → ℕ → ℕ → Request
  frame : Option ℕ → Request
  opaque_region input_region : Option ℕ → Request
  commit : Request
  damage_buffer : ℕ → ℕ → ℕ → ℕ → Request
  buffer_transform buffer_scale : ℕ → Request
  offset : ℕ → ℕ → Request
  region_destroyed : ℕ → Request
  add subtract : ℕ → ℕ → ℕ → ℕ → Request
  create_surface create_region bound_other : Option ℕ → Request
  viewport_destroyed : ℕ → Request
  source : ℕ → ℕ → ℕ → ℕ → Request
  destination : ℕ → ℕ → Request
  viewporter_destroyed : ℕ → Request
  get_viewport : Option ℕ → Option ℕ → Request
  client_destroyed : Request

unfoldable pub step : Request → ShmServer → Step ShmServer Event
unfolding buffer_destroy pool_create_buffer pool_destroy pool_resize shm_create_pool bind_shm
    surface_destroy surface_attach surface_damage surface_frame surface_set_opaque_region
    surface_set_input_region surface_commit surface_damage_buffer surface_set_buffer_transform
    surface_set_buffer_scale surface_offset region_destroy region_add region_subtract
    compositor_create_surface compositor_create_region bind_other viewport_destroy
    viewport_set_source viewport_set_destination viewporter_destroy viewporter_get_viewport
    handle_shm_client_destroy
step (buffer_destroyed r) = buffer_destroy r
step (create_buffer o w h st f c) = pool_create_buffer o w h st f c
step (pool_destroyed r) = pool_destroy r
step resize = pool_resize
step (create_pool fd n fl c) = shm_create_pool fd n fl c
step (bound_shm c) = bind_shm c
step (surface_destroyed r) = surface_destroy r
step (attach b x y) = surface_attach b x y
step (damage x y w h) = surface_damage x y w h
step (frame c) = surface_frame c
step (opaque_region r) = surface_set_opaque_region r
step (input_region r) = surface_set_input_region r
step commit = surface_commit
step (damage_buffer x y w h) = surface_damage_buffer x y w h
step (buffer_transform t) = surface_set_buffer_transform t
step (buffer_scale n) = surface_set_buffer_scale n
step (offset x y) = surface_offset x y
step (region_destroyed r) = region_destroy r
step (add x y w h) = region_add x y w h
step (subtract x y w h) = region_subtract x y w h
step (create_surface c) = compositor_create_surface c
step (create_region c) = compositor_create_region c
step (bound_other c) = bind_other c
step (viewport_destroyed r) = viewport_destroy r
step (source x y w h) = viewport_set_source x y w h
step (destination w h) = viewport_set_destination w h
step (viewporter_destroyed r) = viewporter_destroy r
step (get_viewport t c) = viewporter_get_viewport t c
step client_destroyed = handle_shm_client_destroy

-- `struct shm_server_state state = {0};`
unfoldable pub init : ShmServer
init = record {
  buffer = none;
  frame = none;
  region = none;
  surface = none;
  pool_created = false;
  buffer_created = false;
  buffer_destroyed = false;
  pool_destroyed = false;
  surface_created = false;
  surface_destroyed = false;
  attached = false;
  damaged = false;
  damaged_buffer = false;
  committed = false;
  region_added = false;
  region_subtracted = false;
  region_destroyed = false;
  opaque_region_set = false;
  input_region_set = false;
  transformed = false;
  scaled = false;
  offset = false;
  viewport_created = false;
  viewport_source = false;
  viewport_destination = false;
  viewport_destroyed = false;
}

-- EXIT_SUCCESS at the end of `shm_server_fd`.
unfoldable pub succeeded : ShmServer → Bool
succeeded s =
    (s.pool_created
      && (s.buffer_created
          && (s.buffer_destroyed
              && (s.pool_destroyed
                  && (s.surface_created
                      && (s.surface_destroyed
                          && (s.committed
                              && (s.region_added
                                  && (s.region_subtracted
                                      && (s.region_destroyed
                                          && (s.opaque_region_set && s.input_region_set)))))))))))
    && (s.transformed
        && (s.scaled
            && (s.offset
                && (s.viewport_created
                    && (s.viewport_source && (s.viewport_destination && s.viewport_destroyed))))))

unfoldable pub shm_server_fd : Setup → List Request → Outcome
shm_server_fd env rs = launch env (succeeded (History.run step init rs))

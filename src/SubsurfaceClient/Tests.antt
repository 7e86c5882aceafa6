-- ===== src/SubsurfaceClient/Tests.antt =====
-- src/bench/subsurface-interop-client.c: a run of the client, and the theorem at it.
use wayring.Base.{◌≡◌, refl, true, false, some, [], ◌∷◌}
use wayring.Bench.{is_null}
use wayring.Bench.History.{run}
use wayring.Bench.Routes.{requests}
use wayring.Bench.Texts.{streq}
use wayring.SubsurfaceServer as Server
use wayring.SubsurfaceClient.{
  global, global_remove, step, init, World, before_cleanup, subsurface_client_fd,
}
use wayring.SubsurfaceClient.Session.{routed, subsurface_both_succeed}

-- Both surfaces are made, and a global is removed meanwhile.
abbrev world : World
world = record {
  connected = true;
  first = (global "wl_compositor" (some 3) ∷ global "wl_subcompositor" (some 4) ∷ [], true);
  parent = some 5;
  child = some 6;
  subsurface = some 7;
  second = (global_remove ∷ [], true);
}

world_succeeds : (subsurface_client_fd world).0 ≡ true
unfolding subsurface_client_fd before_cleanup run step streq
world_succeeds = refl

kept : is_null (run step (run step init world.first.0) world.second.0).subcompositor ≡ false
unfolding run step streq
kept = refl

subsurface_both_succeed_example :
    Server.succeeded (run Server.step Server.init (requests routed (subsurface_client_fd world).1))
    ≡ true
subsurface_both_succeed_example = subsurface_both_succeed world world_succeeds kept

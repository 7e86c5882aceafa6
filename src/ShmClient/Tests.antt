-- ===== src/ShmClient/Tests.antt =====
-- src/bench/shm-interop-client.c: two runs of the client, and the theorem at the first.
use wayring.Base.{◌≡◌, refl, Bool, true, false, some, [], ◌∷◌}
use wayring.Bench.History.{run, calls}
use wayring.Bench.Routes.{requests}
use wayring.Bench.Tallies.{tally}
use wayring.Bench.Texts.{streq}
use wayring.ShmServer.Run as Run
use wayring.ShmClient.{Call, callback_destroy, releases, dones, formats, global, step}
use wayring.ShmClient.Main.{
  World, Memory, before_cleanup, make, show, leave_live, cleanup, shm_client_fd,
}
use wayring.ShmClient.Session.{routed, shm_both_succeed}

abbrev memory : Memory
memory = record { fd = some 20; truncated = true; pool = some 6; buffer = some 7 }

abbrev again : Memory
again = record { fd = some 20; truncated = true; pool = some 12; buffer = some 13 }

abbrev world : World
world = record {
  connected = true;
  first = (
    global "wl_shm" (some 3)
        ∷ global "wl_compositor" (some 4)
        ∷ global "wp_viewporter" (some 5)
        ∷ [],
    true,
  );
  second = (formats 0 ∷ [], true);
  memory = memory;
  surface = some 8;
  viewport = some 9;
  region = some 10;
  callback = some 11;
  third = (releases ∷ dones 11 123 ∷ [], true);
  fourth = ([], true);
  again = again;
  flushed = true;
}

world_succeeds : (shm_client_fd world).0 ≡ true
unfolding shm_client_fd before_cleanup make show leave_live run step streq
world_succeeds = refl

shm_both_succeed_example :
    Run.succeeded (run Run.step Run.init (requests routed (shm_client_fd world).1)) ≡ true
shm_both_succeed_example = shm_both_succeed world world_succeeds

-- The callback is done, and the buffer is not released: the callback's handler destroys it, and the
-- cleanup does so again.
abbrev unreleased : World
unreleased = record world { third = (dones 11 123 ∷ [], true) }

abbrev is_callback : Call → Bool
is_callback (callback_destroy r) = true
is_callback _ = false

twice_destroyed : tally is_callback (shm_client_fd unreleased).1 ≡ 2
unfolding shm_client_fd before_cleanup make show leave_live cleanup run calls step streq tally
twice_destroyed = refl

-- ===== src/DmabufClient/Tests.antt =====
-- src/bench/dmabuf-interop-client.c: a run of the client, and the theorem at it.
use wayring.Base.{ℕ, ◌≡◌, refl, true, false, none, some, [], ◌∷◌}
use wayring.Bench.{is_null}
use wayring.Bench.History.{run}
use wayring.Bench.Routes.{requests}
use wayring.Bench.Texts.{streq}
use wayring.DmabufServer as Server
use wayring.DmabufServer.{drm_format_argb8888, drm_format_mod_invalid_hi, drm_format_mod_invalid_lo}
use wayring.DmabufClient.{has_modifier, global, is_created, has_failed, step}
use wayring.DmabufClient.Main.{
  World, Memory, wait_until, fail_create, create_async, create_now, before_cleanup,
  dmabuf_client_fd,
}
use wayring.DmabufClient.Session.{routed, dmabuf_both_succeed}

abbrev memory : ℕ → Memory
memory params = record { fd = some 20; truncated = true; params = some params }

-- The dispatch before the buffer is there brings nothing.
abbrev world : World
world = record {
  connected = true;
  first = (global "zwp_linux_dmabuf_v1" (some 3) ∷ [], true);
  second = (
    has_modifier drm_format_argb8888 drm_format_mod_invalid_hi drm_format_mod_invalid_lo ∷ [],
    true,
  );
  immediate = memory 4;
  buffer = some 5;
  third = ([], true);
  fourth = ([], true);
  async = memory 6;
  until_created = some [] ∷ some (is_created (some 7) ∷ []) ∷ [];
  fifth = ([], true);
  failure = memory 8;
  until_failed = some (has_failed ∷ []) ∷ [];
  sixth = ([], true);
}

world_succeeds : (dmabuf_client_fd world).0 ≡ some true
unfolding dmabuf_client_fd before_cleanup create_now create_async fail_create wait_until run step
    streq
world_succeeds = refl

nothing_left : (before_cleanup world).state.async_buffer ≡ none
unfolding before_cleanup create_now create_async fail_create wait_until run step streq
nothing_left = refl

global_left : is_null (before_cleanup world).state.dmabuf ≡ false
unfolding before_cleanup create_now create_async fail_create wait_until run step streq
global_left = refl

dmabuf_both_succeed_example :
    Server.succeeded (run Server.step Server.init (requests (routed 15) (dmabuf_client_fd world).1))
    ≡ true
dmabuf_both_succeed_example = dmabuf_both_succeed 15 world world_succeeds nothing_left global_left

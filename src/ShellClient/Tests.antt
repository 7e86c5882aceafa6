-- ===== src/ShellClient/Tests.antt =====
-- src/bench/shell-interop-client.c: a run of the client, and the theorem at it.
use wayring.Base.{◌≡◌, refl, true, some, [], ◌∷◌}
use wayring.Bench.History.{run}
use wayring.Bench.Routes.{requests}
use wayring.Bench.Texts.{streq}
use wayring.ShellServer as Server
use wayring.ShellClient.{
  pings, configures, dismisses, global, step, World, before_cleanup, shell_client_fd,
}
use wayring.ShellClient.Session.{routed, shell_both_succeed}

-- The events are those that the server sends, and a ping more.
abbrev world : World
world = record {
  connected = true;
  first = (global "wl_compositor" (some 3) ∷ global "wl_shell" (some 4) ∷ [], true);
  surface = some 5;
  shell_surface = some 6;
  second = (pings 40 ∷ pings 41 ∷ configures 10 800 600 ∷ dismisses ∷ [], true);
  third = ([], true);
}

world_succeeds : (shell_client_fd world).0 ≡ true
unfolding shell_client_fd before_cleanup run step streq
world_succeeds = refl

shell_both_succeed_example :
    Server.succeeded
      (run Server.step Server.init (requests (routed 15 16) (shell_client_fd world).1))
    ≡ true
shell_both_succeed_example = shell_both_succeed 15 16 world world_succeeds

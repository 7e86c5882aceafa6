-- ===== src/XdgClient/Tests.antt =====
-- src/bench/xdg-interop-client.c: a small run of the client, and the theorem at it.
use wayring.Base.{◌≡◌, refl, true, some, [], ◌∷◌}
use wayring.XdgServer as Server
use wayring.XdgServer.{succeeded}
use wayring.XdgClient.{clock, presents, discards, pings, global, configures, step}
use wayring.XdgClient.Main.{
  World, before_cleanup, make_toplevel, until_presented, until_discarded, wait_until, xdg_client_fd,
}
use wayring.Bench.Texts.{streq}
use wayring.Bench.History
use wayring.XdgClient.Routed.{behind, IsServed}
use wayring.XdgClient.Waits.{AreServed}
use wayring.XdgClient.Stages.{IsServedRun}
use wayring.XdgClient.Session.{succeeded-xdg_client_fd}

-- The server configures the surface before it presents the first feedback.
abbrev greeted : World
greeted = record {
  connected = true;
  first = (
    global "wl_compositor" (some 3)
        ∷ global "xdg_wm_base" (some 4)
        ∷ global "wp_presentation" (some 5)
        ∷ [],
    true,
  );
  second = (pings 41 ∷ clock 1 ∷ [], true);
  surface = some 6;
  xdg_surface = some 7;
  toplevel = some 8;
  presented_feedback = some 9;
  until_presented = some (configures 77 ∷ []) ∷ some (presents 1 2 3 16666667 4 5 1 ∷ []) ∷ [];
  discarded_feedback = some 10;
  until_discarded = some (discards ∷ []) ∷ [];
  last = ([], true);
}

greeted-IsServedRun : IsServedRun greeted
unfolding IsServed AreServed
greeted-IsServedRun = record {
  first = (refl, (refl, (refl, tt)));
  second = (refl, (tt, tt));
  until_presented = ((refl, tt), ((tt, tt), tt));
  until_discarded = ((tt, tt), tt);
  last = tt;
}

greeted_succeeds : (xdg_client_fd greeted).0 ≡ some true
unfolding xdg_client_fd before_cleanup make_toplevel until_presented until_discarded wait_until
    History.run step streq
greeted_succeeds = refl

succeeded-xdg_client_fd_example : succeeded (behind Server.init (xdg_client_fd greeted).1) ≡ true
succeeded-xdg_client_fd_example =
    succeeded-xdg_client_fd greeted greeted-IsServedRun greeted_succeeds

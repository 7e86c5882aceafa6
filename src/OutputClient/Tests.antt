-- ===== src/OutputClient/Tests.antt =====
-- src/bench/output-interop-client.c: a run of the client, and the theorem at it.
use wayring.Base.{All, ◌≡◌, refl, sym, ap, true, false, some, [], ◌∷◌, append-nil}
use wayring.Bench.History.{run}
use wayring.Bench.Routes.{requests}
use wayring.OutputServer as Server
use wayring.OutputClient.{global, global_remove, World, output_client_fd}
use wayring.OutputClient.Session.{IsHarmless, description, routed, output_status_iff}

-- The server has version 3 of the output only.
abbrev world : World
world = record {
  connected = true;
  first = (global "wl_output" (some 4) ∷ [], true);
  second = (global_remove ∷ description 3 14, true);
}

removed-IsHarmless : All IsHarmless (global_remove ∷ [])
unfolding IsHarmless
removed-IsHarmless = (tt, tt)

output_status_iff_example :
    ((output_client_fd world).0 ≡ false)
    × (Server.succeeded
          (run Server.step Server.init (requests (routed 3) (output_client_fd world).1))
        ≡ true)
output_status_iff_example =
    output_status_iff 3 4 14 world refl refl refl
      (record { before = []; after = []; whole = refl; all_before = tt; all_after = tt })
      (record {
        before = global_remove ∷ [];
        after = [];
        whole = ap (◌∷◌ global_remove) (sym (append-nil (description 3 14)));
        all_before = removed-IsHarmless;
        all_after = tt;
      })

-- ===== src/TouchClient/Tests.antt =====
-- src/bench/touch-interop-client.c: a run of the client, and the theorem at it.
use wayring.Base.{◌≡◌, refl, sym, ap, true, some, List, [], ◌∷◌, ◌++◌, append-nil}
use wayring.Bench.Among.{IsAmong}
use wayring.Bench.Seats.{World}
use wayring.Bench.Seats.Runs.{verdict}
use wayring.Bench.Seats.Served.{IsServed}
use wayring.TouchClient.{Event, global_remove, check, touch_client_fd}
use wayring.TouchClient.Session.{served, peer, IsHarmless, touch_both_succeed}

-- A global is removed while the greeting comes.
abbrev world : World Event
world = record {
  connected = true;
  first = ((served 3 4 13 16 17).globals, true);
  second = (global_remove ∷ (served 3 4 13 16 17).greeting, true);
  surface = some 6;
  device = some 7;
  third = ((served 3 4 13 16 17).stream, true);
}

append_none : (es : List Event) → es ≡ [] ++ (es ++ [])
append_none es = sym (append-nil es)

abbrev alone : (es : List Event) → IsAmong IsHarmless es es
alone es = record {
  before = [];
  after = [];
  whole = append_none es;
  all_before = tt;
  all_after = tt;
}

world-IsServed : IsServed check (served 3 4 13 16 17) world
unfolding IsHarmless
world-IsServed = record {
  connected = refl;
  answered = (refl, (refl, refl));
  made = (refl, refl);
  announced = alone (served 3 4 13 16 17).globals;
  greeted = record {
    before = global_remove ∷ [];
    after = [];
    whole = ap (◌∷◌ global_remove) (append_none (served 3 4 13 16 17).greeting);
    all_before = (tt, tt);
    all_after = tt;
  };
  streamed = alone (served 3 4 13 16 17).stream;
}

touch_both_succeed_example :
    ((touch_client_fd world).0 ≡ true)
    × (verdict check (peer 16 17) (touch_client_fd world).1 ≡ true)
touch_both_succeed_example = touch_both_succeed 3 4 13 16 17 world world-IsServed

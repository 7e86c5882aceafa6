-- ===== src/ViewportClient/Tests.antt =====
-- src/bench/viewport-benchmark.c, the client: concrete runs, and the theorems at them.
use wayring.Base.{◌==◌, ℕ, ◌-◌, ◌^◌, ◌≡◌, refl, Bool, true, some, [], ◌∷◌, arith}
use wayring.Bench.History.{run}
use wayring.ViewportServer as Server
use wayring.ViewportServer.Operations.{operations}
use wayring.ViewportClient.{send_operations}
use wayring.ViewportClient.Batches.{send_operations_patient}
use wayring.Bench.Texts.{streq}
use wayring.ViewportClient.Main.{global, global_remove, step, World, viewport_benchmark_client_fd}
use wayring.ViewportClient.Session.{IsAnswered, session-succeeded}

-- Only the first roundtrip is answered.
abbrev once : ℕ → Bool
once k = k == 0

send_operations_patient_example :
    ((send_operations 3 (λ k. true) 7 5).success ≡ true)
    × ((send_operations 3 (λ k. true) 7 5).requests ≡ operations 7)
    × ((send_operations 3 (λ k. true) 7 5).roundtrips ≡ 8)
send_operations_patient_example =
    send_operations_patient 3 (λ k. true) (λ k. refl) (omega arith) 7 5

-- The clock wraps between its readings, and a third global is announced.
abbrev world : World
world = record {
  connected = true;
  listening = true;
  globals =
      global "wl_compositor" (some 2)
      ∷ global "wl_shm" (some 3)
      ∷ global "wp_viewporter" (some 4)
      ∷ global_remove
      ∷ [];
  first = true;
  surface = some 8;
  viewport = some 9;
  second = true;
  answers = λ k. true;
  start = some (2 ^ 64 - 5);
  finish = some 7;
}

world-IsAnswered : IsAnswered world (2 ^ 64 - 5) 7
unfolding run step streq
world-IsAnswered = record {
  surface = 8;
  viewport = 9;
  is_connected = refl;
  is_listening = refl;
  has_globals = refl;
  has_compositor = refl;
  has_viewporter = refl;
  has_surface = refl;
  has_viewport = refl;
  has_second = refl;
  is_patient = λ k. refl;
  has_start = refl;
  has_finish = refl;
}

session-succeeded_example :
    ((viewport_benchmark_client_fd 3 4 7 true world).1
      ≡ some (record { elapsed_ns = 12; operations = 7 }))
    × (Server.succeeded
          (run Server.step Server.init (viewport_benchmark_client_fd 3 4 7 true world).0)
        ≡ true)
session-succeeded_example =
    session-succeeded 3 4 7 world (2 ^ 64 - 5) 7 (omega arith) (omega arith) world-IsAnswered

-- ===== src/BenchClient/Measures.antt =====
-- src/bench/libwayland-client.c: what `main` does with its connections, up to its exit.
pub mod Success
mod Tests
use wayring.Base.{
  if◌then◌else◌, length, replicate, ℕ, zero, suc, ◌+◌, Bool, true, false, not, ◌&&◌, ◌||◌, Option,
  none, some, List, [], ◌∷◌,
}
use wayring.Bench.Options.{Options}
use wayring.BenchClient.{Mode, Sender, send_phase}
use wayring.BenchClient.Run.{Connecting, connect_client, Latency, run_latency, destroy_objects}
use wayring.BenchClient.Sending.{Waits}

-- What `main` meets: the three arrays and all socket pairs, fork, what the `i`th call of `connect_client`
-- meets, the two samples, the latency run, what each phase meets, and waitpid with the child's status.
pub record Setting : Type 0 where
  pub allocated : Bool
  pub sockets : Bool
  pub fork : Bool
  pub connecting : ℕ → Connecting
  pub idle_sample : Bool
  pub active_sample : Bool
  pub latency_run : Latency
  pub warmup_flushed : ℕ → Bool
  pub warmup_waits : Waits
  pub messages_flushed : ℕ → Bool
  pub messages_waits : Waits
  pub waitpid : Bool
  pub child : Option Bool

-- The objects of `n` connections from the `i`th on, up to the first that fails, and whether none did.
unfoldable pub connect_all : Options → (ℕ → Connecting) → ℕ → ℕ → List (List (Option ℕ)) × Bool
connect_all o connecting i zero = ([], true)
connect_all o connecting i (suc n) =
    let connected = connect_client o (connecting i) in
    let (others, good) = connect_all o connecting (i + 1) n in
    if connected.status then (connected.objects ∷ others, good) else (connected.objects ∷ [], false)

-- A client after calloc and `connect_client`.
abbrev pub fresh_sender : Options → Sender
fresh_sender o = record { object_count = o.objects; object_cursor = 0; pinged = [] }

abbrev pub status_of : {A : Type 0} → Option A → Option Bool
status_of none = some false
status_of (some a) = some true

abbrev pub and_measure :
    List Sender × Option Bool
    → (List Sender → List Sender × Option Bool)
    → List Sender × Option Bool
and_measure (ss, none) next = (ss, none)
and_measure (ss, some false) next = (ss, some false)
and_measure (ss, some true) next = next ss

-- The two phases of pings.
unfoldable pub phases : Options → Mode → Setting → List Sender → List Sender × Option Bool
phases o m w ss =
    and_measure (send_phase o.warmup o.batch 1 w.warmup_flushed ss w.warmup_waits) (λ warm.
      if m.idle && not w.active_sample
      then (warm, some false)
      else send_phase o.messages o.batch 2 w.messages_flushed warm w.messages_waits)

-- The measurement: the clients after it, and whether it succeeds, if it ends. In the latency mode the
-- clients' cursors are not used.
unfoldable pub measurement : Options → Mode → Setting → List Sender → List Sender × Option Bool
measurement o m w ss =
    if o.latency then (ss, status_of (run_latency o w.latency_run)) else phases o m w ss

unfoldable pub destroy_all_objects : List (List (Option ℕ)) → List (List (Option ℕ))
destroy_all_objects [] = []
destroy_all_objects (objects ∷ rest) =
    destroy_objects (length objects) objects ∷ destroy_all_objects rest

-- The clients at the end, the objects that were destroyed for each, and the exit status, if it returns.
pub record Finished : Type 0 where
  pub clients : List Sender
  pub destroyed : List (List (Option ℕ))
  pub status : Option Bool

abbrev pub finish : Setting → List (List (Option ℕ)) → List Sender × Option Bool → Finished
finish w objects (ss, some true) = record {
  clients = ss;
  destroyed = destroy_all_objects objects;
  status = if w.waitpid then w.child else some false;
}
finish w objects (ss, status) = record { clients = ss; destroyed = []; status = status }

-- `main` from its allocations on.
unfoldable pub run_measures : Options → Mode → Setting → Finished
run_measures o m w =
    let (objects, connected) = connect_all o w.connecting 0 m.connections in
    let ss = replicate m.connections (fresh_sender o) in
    if not w.allocated
      || (not w.sockets || (not w.fork || (not connected || (m.idle && not w.idle_sample))))
    then finish w objects (ss, some false)
    else finish w objects (measurement o m w ss)

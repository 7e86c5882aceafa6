-- ===== src/BenchClient/Measures/Success.antt =====
-- src/bench/libwayland-client.c: what `main` has done when it succeeds.
use wayring.Base.{
  if◌then◌else◌, All, length, replicate, ℕ, zero, suc, ◌+◌, ◌<◌, ◌≡◌, refl, sym, ap, ap₂, subst,
  ◌∙◌, Bool, true, false, not, ◌&&◌, ◌||◌, Option, none, some, List, [], ◌∷◌, map, arith,
}
use Prim.Native.String.{String}
use wayring.Bench.Options.{Options}
use wayring.BenchClient.{Mode, Sender, each_connection, send_chunk, send_phase, has_options}
use wayring.BenchClient.Run.{Connecting, connect_client, all_bound}
use wayring.BenchClient.Cleanup.{backwards, destroy_all, connected}
use wayring.BenchClient.Sending.{Waits, send_chunk-add, each-each, send_phase_even}
use wayring.BenchClient.Arguments.{measures, program_of}
use wayring.BenchClient.Arguments.Chosen.{IsUsable, IsSafe, program_of-IsSafe}
use wayring.BenchClient.Measures.{
  Setting, connect_all, fresh_sender, and_measure, phases, measurement, destroy_all_objects,
  Finished, finish, run_measures,
}

abbrev pub IsConnected : Options → List (Option ℕ) → Type 0
IsConnected o objects = (all_bound objects ≡ true) × (length objects ≡ o.objects)

has_usable : (o : Options) → IsUsable o → has_options o ≡ true
unfolding has_options
has_usable o u = ground arith

abbrev connections_with :
    Bool → List (Option ℕ) → List (List (Option ℕ)) × Bool → List (List (Option ℕ)) × Bool
connections_with good objects (others, all_good) =
    if good then (objects ∷ others, all_good) else (objects ∷ [], false)

next_connected :
    (good : Bool) (objects : List (Option ℕ)) (rest : List (List (Option ℕ)) × Bool)
    → (connections_with good objects rest).1 ≡ true
    → (good ≡ true) × (rest.1 ≡ true) × ((connections_with good objects rest).0 ≡ objects ∷ rest.0)
next_connected true objects rest e = (refl, e, refl)
next_connected false objects rest e = absurd (cc)

connect_all-IsConnected :
    (o : Options) (connecting : ℕ → Connecting) (i n : ℕ)
    → IsUsable o
    → (connect_all o connecting i n).1 ≡ true
    → (length (connect_all o connecting i n).0 ≡ n)
      × All (IsConnected o) (connect_all o connecting i n).0
unfolding connect_all
connect_all-IsConnected o connecting i zero u e = (refl, tt)
connect_all-IsConnected o connecting i (suc n) u e =
    let c = connecting i in
    let (good, others, same) =
      next_connected (connect_client o c).status (connect_client o c).objects
        (connect_all o connecting (i + 1) n) e in
    let (counted, all) = connect_all-IsConnected o connecting (i + 1) n u others in
    (
      ap length same ∙ ap suc counted,
      subst (λ xs. All (IsConnected o) xs) (sym same) (connected o c (has_usable o u) good, all),
    )

destroyed_all :
    (o : Options) (objects : List (List (Option ℕ)))
    → All (IsConnected o) objects
    → destroy_all_objects objects ≡ map backwards objects
unfolding destroy_all_objects
destroyed_all o [] a = refl
destroyed_all o (xs ∷ rest) ((bound, counted), a) =
    ap₂ (◌∷◌) (destroy_all xs bound) (destroyed_all o rest a)

-- The clients after `n` pings each.
abbrev pub each_sent : ℕ → List Sender → List Sender
each_sent n ss = each_connection (send_chunk n) ss

and_measure_done :
    (first : List Sender × Option Bool) (next : List Sender → List Sender × Option Bool)
    → (and_measure first next).1 ≡ some true
    → (first.1 ≡ some true) × (and_measure first next ≡ next first.0)
and_measure_done (ss, none) next e = absurd (cc)
and_measure_done (ss, some false) next e = absurd (cc)
and_measure_done (ss, some true) next e = (refl, refl)

past_sample :
    (missing : Bool) (warm : List Sender) (then_sent : List Sender × Option Bool)
    → (if missing then (warm, some false) else then_sent).1 ≡ some true
    → (if missing then (warm, some false) else then_sent) ≡ then_sent
past_sample true warm then_sent e = absurd (cc)
past_sample false warm then_sent e = refl

phase_sent :
    (count batch ack : ℕ) (flushed : ℕ → Bool) (ss : List Sender) (waits : Waits)
    → 0 < batch
    → (send_phase count batch ack flushed ss waits).1 ≡ some true
    → (send_phase count batch ack flushed ss waits).0 ≡ each_sent count ss
phase_sent count batch ack flushed ss waits b e =
    let (n, (le, (sent, all))) = send_phase_even count batch ack flushed ss waits b in
    sent ∙ ap (λ k. each_sent k ss) (all e).0

phases_sent :
    (o : Options) (m : Mode) (w : Setting) (ss : List Sender)
    → 0 < o.batch
    → (phases o m w ss).1 ≡ some true
    → (phases o m w ss).0 ≡ each_sent (o.warmup + o.messages) ss
unfolding phases
phases_sent o m w ss b e =
    let warmup = send_phase o.warmup o.batch 1 w.warmup_flushed ss w.warmup_waits in
    let messages = send_phase o.messages o.batch 2 w.messages_flushed warmup.0 w.messages_waits in
    let next : List Sender → List Sender × Option Bool = λ warm.
      if m.idle && not w.active_sample
      then (warm, some false)
      else send_phase o.messages o.batch 2 w.messages_flushed warm w.messages_waits in
    let (warm, on) = and_measure_done warmup next e in
    let sampled =
      past_sample (m.idle && not w.active_sample) warmup.0 messages (sym (ap (λ r. r.1) on) ∙ e) in
    let good : messages.1 ≡ some true = sym (ap (λ r. r.1) (on ∙ sampled)) ∙ e in
    ap (λ r. r.0) (on ∙ sampled)
    ∙ phase_sent o.messages o.batch 2 w.messages_flushed warmup.0 w.messages_waits b good
    ∙ ap (each_sent o.messages)
        (phase_sent o.warmup o.batch 1 w.warmup_flushed ss w.warmup_waits b warm)
    ∙ each-each (send_chunk o.warmup) (send_chunk o.messages) (send_chunk (o.warmup + o.messages))
        ss (λ s. sym (send_chunk-add o.warmup o.messages s))

-- What a run that succeeds has done.
abbrev pub HasFinished : Options → Mode → Setting → Finished → Type 0
HasFinished o m w r =
    (o.latency ≡ false
      → r.clients ≡ each_sent (o.warmup + o.messages) (replicate m.connections (fresh_sender o)))
    × (r.destroyed ≡ map backwards (connect_all o w.connecting 0 m.connections).0)
    × (length (connect_all o w.connecting 0 m.connections).0 ≡ m.connections)
    × All (IsConnected o) (connect_all o w.connecting 0 m.connections).0
    × (w.child ≡ some true)

finish_done :
    (w : Setting) (objects : List (List (Option ℕ))) (r : List Sender × Option Bool)
    → (finish w objects r).status ≡ some true
    → (r.1 ≡ some true)
      × ((finish w objects r).clients ≡ r.0)
      × ((finish w objects r).destroyed ≡ destroy_all_objects objects)
      × (w.child ≡ some true)
finish_done w objects (ss, none) e = absurd (cc)
finish_done w objects (ss, some false) e = absurd (cc)
finish_done w objects (ss, some true) e = (refl, refl, refl, ground arith)

measured_done :
    (o : Options) (m : Mode) (w : Setting) (ss : List Sender)
    → 0 < o.batch
    → (measurement o m w ss).1 ≡ some true
    → o.latency ≡ false
    → (measurement o m w ss).0 ≡ each_sent (o.warmup + o.messages) ss
unfolding measurement
measured_done o m w ss b e l =
    let same : measurement o m w ss ≡ phases o m w ss = rw l refl in
    ap (λ r. r.0) same ∙ phases_sent o m w ss b (sym (ap (λ r. r.1) same) ∙ e)

past_start :
    (failed : Bool) (w : Setting) (objects : List (List (Option ℕ))) (ss : List Sender)
    (r : List Sender × Option Bool)
    → (if failed then finish w objects (ss, some false) else finish w objects r).status ≡ some true
    → (failed ≡ false)
      × ((if failed then finish w objects (ss, some false) else finish w objects r)
          ≡ finish w objects r)
past_start true w objects ss r e = absurd (cc)
past_start false w objects ss r e = (refl, refl)

all_connected :
    (allocated sockets fork connected no_sample : Bool)
    → (not allocated || (not sockets || (not fork || (not connected || no_sample)))) ≡ false
    → connected ≡ true
all_connected allocated sockets fork connected no_sample e = ground arith

run_measures_done :
    (o : Options) (m : Mode) (w : Setting)
    → IsUsable o
    → (run_measures o m w).status ≡ some true
    → HasFinished o m w (run_measures o m w)
unfolding run_measures
run_measures_done o m w u e =
    let objects = (connect_all o w.connecting 0 m.connections).0 in
    let ss = replicate m.connections (fresh_sender o) in
    let (started, same) = past_start _ w objects ss (measurement o m w ss) e in
    let (good, clients, destroyed, child) =
      finish_done w objects (measurement o m w ss)
        (sym (ap (λ (f : Finished). f.status) same) ∙ e) in
    let (counted, all) = connect_all-IsConnected o w.connecting 0 m.connections u (
      all_connected w.allocated w.sockets w.fork (connect_all o w.connecting 0 m.connections).1 _
        started) in
    (
      λ l. ap (λ (f : Finished). f.clients) same ∙ clients ∙ measured_done o m w ss u.1.1.0 good l,
      ap (λ (f : Finished). f.destroyed) same ∙ destroyed ∙ destroyed_all o objects all,
      counted,
      all,
      child,
    )

-- If `main` runs its connections and exits with success, its arguments being any, then outside the latency
-- mode every client has sent exactly its warmup and its messages as pings; all connections were made, each
-- with as many objects as asked for, none of them NULL; the calls that destroy are, connection by
-- connection, for exactly the objects that connect_client made, each once and the last one first; and the
-- server ended with success.
pub main_succeeds :
    (args : List String) (o : Options) (m : Mode) (w : Setting)
    → program_of args ≡ measures o m
    → (run_measures o m w).status ≡ some true
    → HasFinished o m w (run_measures o m w)
unfolding IsSafe
main_succeeds args o m w p e = run_measures_done o m w (subst IsSafe p (program_of-IsSafe args)).0 e

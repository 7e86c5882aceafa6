-- ===== src/BenchClient/Sending.antt =====
-- src/bench/libwayland-client.c: the pings of `send_phase`, connection by connection.
use wayring.Base.{
  ◌==◌, if◌then◌else◌, Bool-cases, All, length, ℕ, zero, suc, ◌+◌, ◌-◌, ◌%◌, ◌^◌, ◌≤◌, ◌<◌, min,
  ◌≡◌, refl, sym, ap, ap₂, ◌∙◌, inl, inr, Bool, true, false, Option, some, List, [], ◌∷◌, ◌++◌, map,
  append_assoc, append-nil, arith,
}
use native.Mathlib.Nat.{mod-lt, mod-eq_of_lt, mod_self, mod-add-mod}
use wayring.BenchClient.{
  max_objects, wait_all, Answers, send_phase, Sender, ping, send_chunk, each_connection,
  send_rounds, send_pings,
}

pub send_chunk-add : (a b : ℕ) (s : Sender) → send_chunk (a + b) s ≡ send_chunk b (send_chunk a s)
unfolding send_chunk
send_chunk-add zero b s = ap (λ n. send_chunk n s) {x = 0 + b} {y = b} (omega arith)
send_chunk-add (suc a) b s =
    ap (λ n. send_chunk n s) {x = suc a + b} {y = suc (a + b)} (omega arith)
    ∙ send_chunk-add a b (ping s)

pub each-each :
    (f g h : Sender → Sender) (ss : List Sender)
    → ((s : Sender) → g (f s) ≡ h s)
    → each_connection g (each_connection f ss) ≡ each_connection h ss
unfolding each_connection
each-each f g h [] e = refl
each-each f g h (s ∷ ss) e = ap₂ (◌∷◌) (e s) (each-each f g h ss e)

each_same :
    (f : Sender → Sender) (ss : List Sender) → ((s : Sender) → f s ≡ s) → each_connection f ss ≡ ss
unfolding each_connection
each_same f [] e = refl
each_same f (s ∷ ss) e = ap₂ (◌∷◌) (e s) (each_same f ss e)

-- Every connection has sent the first `n` of its pings, all of `count` if nothing failed.
abbrev pub IsEven : ℕ → List Sender → List Sender × Bool → Type 0
IsEven count ss (after, good) =
    (n : ℕ) × (n ≤ count) × (after ≡ each_connection (send_chunk n) ss) × (good ≡ true → n ≡ count)

none_sent :
    (count : ℕ) (ss : List Sender) (good : Bool)
    → (good ≡ true → 0 ≡ count)
    → IsEven count ss (ss, good)
unfolding send_chunk
none_sent count ss good h = (0, omega arith, sym (each_same (send_chunk 0) ss (λ s. refl)), h)

chunk_more :
    (remaining chunk : ℕ) (ss : List Sender) (r : List Sender × Bool)
    → chunk ≤ remaining
    → IsEven (remaining - chunk) (each_connection (send_chunk chunk) ss) r
    → IsEven remaining ss r
chunk_more remaining chunk ss r h (n, le, e, all) = (
  chunk + n,
  omega arith,
  e
      ∙ each-each (send_chunk chunk) (send_chunk n) (send_chunk (chunk + n)) ss
          (λ s. sym (send_chunk-add chunk n s)),
  λ g. omega (arith, all g),
)

send_rounds-IsEven :
    (fuel remaining batch : ℕ) (flushed : ℕ → Bool) (round : ℕ) (ss : List Sender)
    → remaining ≤ fuel
    → 0 < batch
    → IsEven remaining ss (send_rounds fuel remaining batch flushed round ss)
unfolding send_rounds
send_rounds-IsEven zero remaining batch flushed round ss h b =
    none_sent remaining ss true (λ e. omega arith)
send_rounds-IsEven (suc fuel) remaining batch flushed round ss h b =
    elim (Bool-cases (remaining == 0)) [
      | inl done ↦ rw done (none_sent remaining ss true (λ e. ground arith))
      | inr more ↦ elim (Bool-cases (flushed round)) [
        | inl good ↦
            rw (more, good)
              (chunk_more remaining (min remaining batch) ss _ (omega arith) (
                send_rounds-IsEven fuel (remaining - min remaining batch) batch flushed (round + 1)
                  (each_connection (send_chunk (min remaining batch)) ss) (ground arith) b))
        | inr bad ↦ rw (more, bad) (min remaining batch, omega arith, refl, λ e. cc)
      ]
    ]

-- Whatever the flushes answer, all connections have sent the same number of pings at any return of
-- the loop of `send_phase`, and as many as asked for if none failed. The batch does not matter.
pub send_pings-IsEven :
    (count batch : ℕ) (flushed : ℕ → Bool) (ss : List Sender)
    → 0 < batch
    → IsEven count ss (send_pings count batch flushed ss)
unfolding send_pings
send_pings-IsEven count batch flushed ss b =
    send_rounds-IsEven count count batch flushed 0 ss (omega arith) b

send_rounds_good :
    (fuel remaining batch : ℕ) (flushed : ℕ → Bool) (round : ℕ) (ss : List Sender)
    → ((n : ℕ) → flushed n ≡ true)
    → (send_rounds fuel remaining batch flushed round ss).1 ≡ true
unfolding send_rounds
send_rounds_good zero remaining batch flushed round ss g = refl
send_rounds_good (suc fuel) remaining batch flushed round ss g = ground (
  arith,
  g round,
  send_rounds_good fuel (remaining - min remaining batch) batch flushed (round + 1)
      (each_connection (send_chunk (min remaining batch)) ss) g,
)

-- If every connection can be flushed, each has sent exactly `count` pings.
pub send_pings_flushed :
    (count batch : ℕ) (flushed : ℕ → Bool) (ss : List Sender)
    → 0 < batch
    → ((n : ℕ) → flushed n ≡ true)
    → ((send_pings count batch flushed ss).0 ≡ each_connection (send_chunk count) ss)
      × ((send_pings count batch flushed ss).1 ≡ true)
unfolding send_pings
send_pings_flushed count batch flushed ss b g =
    let (n, le, e, all) = send_pings-IsEven count batch flushed ss b in
    let good = send_rounds_good count count batch flushed 0 ss g in
    (e ∙ ap (λ m. each_connection (send_chunk m) ss) (all good), good)

next_mod : (c k : ℕ) → 0 < k → (if c % k + 1 == k then 0 else c % k + 1) ≡ (c + 1) % k
next_mod c k h = elim (Bool-cases (c % k + 1 == k)) [
  | inl around ↦ rw around (
      sym (mod_self k) ∙ ap (λ m. m % k) {x = k} {y = c % k + 1} (ground arith) ∙ mod-add-mod c k 1)
  | inr on ↦
      rw on (
        sym (mod-eq_of_lt {n = c % k + 1} {m = k} (ground (arith, mod-lt c h))) ∙ mod-add-mod c k 1)
]

-- The objects of `n` pings from the `c`th on, `k` objects being pinged in turn.
unfoldable pub robin : ℕ → ℕ → ℕ → List ℕ
robin zero c k = []
robin (suc n) c k = c % k ∷ robin n (c + 1) k

abbrev pub turned : ℕ → ℕ → List ℕ → Sender
turned c k pinged = record { object_count = k; object_cursor = c % k; pinged = pinged }

ping-turned :
    (c k : ℕ) (pinged : List ℕ)
    → 0 < k
    → k < 2 ^ 32
    → ping (turned c k pinged) ≡ turned (c + 1) k (pinged ++ (c % k ∷ []))
unfolding ping
ping-turned c k pinged h w =
    ap (λ m. record { object_count = k; object_cursor = m; pinged = pinged ++ (c % k ∷ []) })
      (ap (λ m. if m == k then 0 else m) {x = (c % k + 1) % 2 ^ 32} {y = c % k + 1}
          (omega (arith, mod-lt c h))
        ∙ next_mod c k h)

-- The pings of a chunk go to the objects of the connection in turn, from its cursor on, and the cursor
-- goes on with them.
pub send_chunk_turns :
    (n c k : ℕ) (pinged : List ℕ)
    → 0 < k
    → k < 2 ^ 32
    → send_chunk n (turned c k pinged) ≡ turned (c + n) k (pinged ++ robin n c k)
unfolding send_chunk robin
send_chunk_turns zero c k pinged h w =
    ap₂ (λ m xs. turned m k xs) {x = c} {y = c + 0} (omega arith) (sym (append-nil pinged))
send_chunk_turns (suc n) c k pinged h w =
    ap (send_chunk n) (ping-turned c k pinged h w)
    ∙ send_chunk_turns n (c + 1) k (pinged ++ (c % k ∷ [])) h w
    ∙ ap₂ (λ m xs. turned m k xs) {x = c + 1 + n} {y = c + suc n} (omega arith)
        (append_assoc pinged (c % k ∷ []) (robin n (c + 1) k))

abbrev pub HasObjects : ℕ → Type 0
HasObjects k = (0 < k) × (k ≤ max_objects)

-- The connections after the `n`th ping of each, by their numbers of objects.
abbrev pub all_turned : ℕ → List ℕ → List Sender
all_turned n ks = map (λ k. turned n k (robin n 0 k)) ks

each_turned :
    (n : ℕ) (ks : List ℕ)
    → All HasObjects ks
    → each_connection (send_chunk n) (all_turned 0 ks) ≡ all_turned n ks
unfolding each_connection robin
each_turned n [] a = refl
each_turned n (k ∷ ks) ((positive, few), a) =
    ap₂ (◌∷◌)
      (send_chunk_turns n 0 k [] positive (omega (arith, few))
        ∙ ap (λ c. turned c k (robin n 0 k)) {x = 0 + n} {y = n} (omega arith))
      (each_turned n ks a)

length-all_turned : (n : ℕ) (ks : List ℕ) → length (all_turned n ks) ≡ length ks
length-all_turned n [] = refl
length-all_turned n (k ∷ ks) = ap suc (length-all_turned n ks)

abbrev pub Waits : Type 0
Waits = List (Answers × List (Option (List ℕ)))

-- From fresh connections, if each can be flushed, `send_phase` sends on each of them exactly `count`
-- pings, to its objects in turn, whatever the positive batch is, and its status is that of its waits.
pub send_phase_robin :
    (count batch ack : ℕ) (flushed : ℕ → Bool) (ks : List ℕ) (waits : Waits)
    → 0 < batch
    → ((n : ℕ) → flushed n ≡ true)
    → All HasObjects ks
    → ((send_phase count batch ack flushed (all_turned 0 ks) waits).0 ≡ all_turned count ks)
      × ((send_phase count batch ack flushed (all_turned 0 ks) waits).1
          ≡ wait_all ack (length ks) waits)
unfolding send_phase
send_phase_robin count batch ack flushed ks waits b g a =
    let (sent, good) = send_pings_flushed count batch flushed (all_turned 0 ks) b g in
    (
      sent ∙ each_turned count ks a,
      ground (arith, good) ∙ ap (λ n. wait_all ack n waits) (length-all_turned 0 ks),
    )

-- Whatever the flushes answer, all connections have sent the same number of pings, at most `count`, when
-- `send_phase` returns; if it returns success, they have sent `count` each and all waits succeeded.
pub send_phase_even :
    (count batch ack : ℕ) (flushed : ℕ → Bool) (ss : List Sender) (waits : Waits)
    → 0 < batch
    → (n : ℕ) × ((n ≤ count)
        × (((send_phase count batch ack flushed ss waits).0 ≡ each_connection (send_chunk n) ss)
            × ((send_phase count batch ack flushed ss waits).1 ≡ some true
                → (n ≡ count) × (wait_all ack (length ss) waits ≡ some true))))
unfolding send_phase
send_phase_even count batch ack flushed ss waits b =
    let (n, le, e, all) = send_pings-IsEven count batch flushed ss b in
    (
      n,
      (
        le,
        (
          e,
          λ good. (
            all
                (sent_all (send_pings count batch flushed ss).1 (wait_all ack (length ss) waits)
                  good).0,
            (sent_all (send_pings count batch flushed ss).1 (wait_all ack (length ss) waits)
                good).1,
          ),
        ),
      ),
    )
  where
    sent_all :
        (good : Bool) (status : Option Bool)
        → (if good then status else some false) ≡ some true
        → (good ≡ true) × (status ≡ some true)
    sent_all true status e = (refl, e)
    sent_all false status e = cc

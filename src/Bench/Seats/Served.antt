-- ===== src/Bench/Seats/Served.antt =====
-- The run of the clients of the pointer, keyboard and touch checks at a server that sends what they wait
-- for.
use wayring.Base.{All, ◌≡◌, refl, ◌∙◌, Bool, true, false, not, ◌&&◌, List, arith}
use wayring.Bench.{is_null}
use wayring.Bench.History.{run}
use wayring.Bench.Among.{IsAmong, run_among, run_kept}
use wayring.Bench.Seats.{Check, World, has_globals, seat_client_fd}
use wayring.Bench.Seats.Runs.{first_state, second_state, third_state, status_iff}

all_of :
    {a b c d e f g h i : Bool}
    → a ≡ true
    → b ≡ true
    → c ≡ true
    → d ≡ true
    → e ≡ true
    → f ≡ false
    → g ≡ false
    → h ≡ true
    → i ≡ true
    → a && ((b && c) && ((d && e) && ((not f && not g) && (h && i)))) ≡ true
all_of a b c d e f g h i = rw (a, b, c, d, e, f, g, h, i) refl

last_of : (a b : Bool) → not a && not b ≡ true → b ≡ false
last_of a true e = ground arith
last_of a false e = refl

-- What a server sends: its globals, the greeting of a seat and the stream of a device; the events that do
-- no harm among them, and the states from which the stream is right.
pub record Served (S E : Type 0) : Type 1 where
  pub IsHarmless : E → Type 0
  pub IsFresh : S → Type 0
  pub globals : List E
  pub greeting : List E
  pub stream : List E

module _ {S E : Type 0} (k : Check S E) (v : Served S E) where
  -- These do what the client waits for.
  pub record IsServing : Type 0 where
    pub fresh : v.IsFresh k.init
    pub harmless_globals : All v.IsHarmless v.globals
    pub harmless_greeting : All v.IsHarmless v.greeting
    pub keeps_fresh : (e : E) (s : S) → v.IsHarmless e → v.IsFresh s → v.IsFresh (k.step e s).0
    pub keeps_globals :
        (e : E) (s : S)
        → v.IsHarmless e
        → has_globals k s ≡ true
        → has_globals k (k.step e s).0 ≡ true
    pub keeps_seat :
        (e : E) (s : S) → v.IsHarmless e → k.is_seat s ≡ true → k.is_seat (k.step e s).0 ≡ true
    pub keeps_passes :
        (e : E) (s : S) → v.IsHarmless e → k.passes s ≡ true → k.passes (k.step e s).0 ≡ true
    pub announces : (s : S) → has_globals k (run k.step s v.globals) ≡ true
    pub greets : (s : S) → k.is_seat (run k.step s v.greeting) ≡ true
    pub streams : (s : S) → v.IsFresh s → k.passes (run k.step s v.stream) ≡ true
    pub streams_globals :
        (s : S) → has_globals k s ≡ true → has_globals k (run k.step s v.stream) ≡ true

  -- A run at such a server, in which all calls succeed.
  pub record IsServed (w : World E) : Type 0 where
    pub connected : w.connected ≡ true
    pub answered : (w.first.1 ≡ true) × ((w.second.1 ≡ true) × (w.third.1 ≡ true))
    pub made : (is_null w.surface ≡ false) × (is_null w.device ≡ false)
    pub announced : IsAmong v.IsHarmless v.globals w.first.0
    pub greeted : IsAmong v.IsHarmless v.greeting w.second.0
    pub streamed : IsAmong v.IsHarmless v.stream w.third.0

  -- Such a run succeeds, and has its seat at the end.
  pub served_succeeds :
      IsServing
      → (w : World E) → IsServed w
      → ((seat_client_fd k w).0 ≡ true) × (is_null (k.seat (third_state k w)) ≡ false)
  served_succeeds i w d =
      let P = v.IsHarmless in
      let IsJoined : S → Type 0 = λ s. has_globals k s ≡ true in
      let one =
        run_among k.step P v.IsFresh IsJoined i.keeps_fresh i.keeps_globals v.globals w.first.0
          k.init d.announced (λ s q. i.announces s) i.fresh in
      let fresh_one =
        run_kept k.step P v.IsFresh i.keeps_fresh v.globals w.first.0 k.init i.harmless_globals
          d.announced i.fresh in
      let two =
        run_among k.step P v.IsFresh (λ s. k.is_seat s ≡ true) i.keeps_fresh i.keeps_seat v.greeting
          w.second.0 (first_state k w) d.greeted (λ s q. i.greets s) fresh_one in
      let joined_two =
        run_kept k.step P IsJoined i.keeps_globals v.greeting w.second.0 (first_state k w)
          i.harmless_greeting d.greeted one in
      let fresh_two =
        run_kept k.step P v.IsFresh i.keeps_fresh v.greeting w.second.0 (first_state k w)
          i.harmless_greeting d.greeted fresh_one in
      let three =
        run_among k.step P v.IsFresh (λ s. k.passes s ≡ true) i.keeps_fresh i.keeps_passes v.stream
          w.third.0 (second_state k w) d.streamed i.streams fresh_two in
      let joined_three : has_globals k (third_state k w) ≡ true =
        run_among k.step P IsJoined IsJoined i.keeps_globals i.keeps_globals v.stream w.third.0
          (second_state k w) d.streamed i.streams_globals joined_two in
      (
        status_iff k w
            ∙ all_of d.connected d.answered.0 one d.answered.1.0 two d.made.0 d.made.1
                d.answered.1.1 three,
        last_of (is_null (k.compositor (third_state k w))) (is_null (k.seat (third_state k w)))
            joined_three,
      )

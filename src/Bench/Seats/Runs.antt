-- ===== src/Bench/Seats/Runs.antt =====
-- The run of the clients of the pointer, keyboard and touch checks: when it succeeds, and what it asks
-- of the server then.
use wayring.Base.{
  ℕ, ◌≡◌, refl, sym, ap, ◌∙◌, Bool, true, false, not, ◌&&◌, Option, none, some, List, [], ◌∷◌, ◌++◌,
  arith,
}
use wayring.Bench.{is_null}
use wayring.Bench.History.{run, calls}
use wayring.Bench.Routes.{requests, requests-calls, requests_between}
use wayring.Bench.Seats.{
  Call, create_surface, get_device, device_release, surface_destroy, seat_release,
  compositor_destroy, registry_destroy, flush, disconnect, Check, World, held, has_globals,
  before_cleanup, cleanup, seat_client_fd,
}

module _ {S E : Type 0} (k : Check S E) where
  abbrev pub first_state : World E → S
  first_state w = run k.step k.init w.first.0

  abbrev pub second_state : World E → S
  second_state w = run k.step (first_state w) w.second.0

  abbrev pub third_state : World E → S
  third_state w = run k.step (second_state w) w.third.0

  -- The status of a run, by what its roundtrips bring.
  pub status_iff :
      (w : World E)
      → (seat_client_fd k w).0
        ≡ w.connected
          && ((w.first.1 && has_globals k (first_state w))
              && ((w.second.1 && k.is_seat (second_state w))
                  && ((not (is_null w.surface) && not (is_null w.device))
                      && (w.third.1 && k.passes (third_state w)))))
  unfolding seat_client_fd before_cleanup
  status_iff w = ground arith

module _ {S E : Type 0} (k : Check S E) where
  -- The calls of a run that comes to the last test.
  calls_of :
      (w : World E)
      → w.connected ≡ true
      → (w.first.1 ≡ true) × (has_globals k (first_state k w) ≡ true)
      → (w.second.1 ≡ true) × (k.is_seat (second_state k w) ≡ true)
      → (is_null w.surface ≡ false) × (is_null w.device ≡ false)
      → (seat_client_fd k w).1
        ≡ (((calls k.step k.init w.first.0 ++ calls k.step (first_state k w) w.second.0)
              ++ (create_surface ∷ get_device ∷ []))
            ++ calls k.step (second_state k w) w.third.0)
          ++ (held device_release w.device
              ++ (held surface_destroy w.surface
                  ++ (held seat_release (k.seat (third_state k w))
                      ++ (held compositor_destroy (k.compositor (third_state k w))
                          ++ (registry_destroy ∷ flush ∷ disconnect ∷ [])))))
  unfolding seat_client_fd before_cleanup cleanup
  calls_of w c (f, g) (s, h) (u, d) = rw (c, f, g, s, h, u, d) refl

-- A server: its handlers, initial state and verdict, and the requests that a call of the client is.
pub record Peer (T R F : Type 0) : Type 0 where
  pub step : R → T → T × List F
  pub init : T
  pub succeeded : T → Bool
  pub routed : Call → List R

-- The calls behind the last test.
abbrev pub ending : ℕ → ℕ → ℕ → Option ℕ → List Call
ending device surface seat compositor =
    device_release device
    ∷ surface_destroy surface
    ∷ seat_release seat
    ∷ (held compositor_destroy compositor ++ (registry_destroy ∷ flush ∷ disconnect ∷ []))

module _ {S E T R F : Type 0} (k : Check S E) (peer : Peer T R F) where
  -- The server's verdict on the calls of a client.
  abbrev pub verdict : List Call → Bool
  verdict cs = peer.succeeded (run peer.step peer.init (requests peer.routed cs))

  -- The handlers of the client's events ask nothing of the server, and it is content with the rest.
  pub record IsPeer : Type 0 where
    pub quiet : (e : E) (s : S) → requests peer.routed (k.step e s).1 ≡ []
    pub content :
        (device surface seat : ℕ) (compositor : Option ℕ)
        → peer.succeeded (
            run peer.step peer.init (
              requests peer.routed (create_surface ∷ get_device ∷ [])
              ++ requests peer.routed (ending device surface seat compositor)))
          ≡ true

  content_held :
      IsPeer
      → (device surface seat compositor : Option ℕ) → is_null device ≡ false
      → is_null surface ≡ false
      → is_null seat ≡ false
      → peer.succeeded (
          run peer.step peer.init (
            requests peer.routed (create_surface ∷ get_device ∷ [])
            ++ requests peer.routed (
                held device_release device
                ++ (held surface_destroy surface
                    ++ (held seat_release seat
                        ++ (held compositor_destroy compositor
                            ++ (registry_destroy ∷ flush ∷ disconnect ∷ [])))))))
        ≡ true
  content_held i none u s c d f g = absurd (cc)
  content_held i (some d) none s c e f g = absurd (cc)
  content_held i (some d) (some u) none c e f g = absurd (cc)
  content_held i (some d) (some u) (some s) c e f g = i.content d u s c

  -- The server succeeds by the calls of a client that succeeds, if that has its seat at the end.
  pub server_succeeds :
      IsPeer
      → (w : World E) → (seat_client_fd k w).0 ≡ true
      → is_null (k.seat (third_state k w)) ≡ false
      → verdict (seat_client_fd k w).1 ≡ true
  server_succeeds i w s n =
      let e = sym (status_iff k w) ∙ s in
      let c : w.connected ≡ true = ground arith in
      let f : (w.first.1 ≡ true) × (has_globals k (first_state k w) ≡ true) =
        (ground arith, ground arith) in
      let g : (w.second.1 ≡ true) × (k.is_seat (second_state k w) ≡ true) =
        (ground arith, ground arith) in
      let d : (is_null w.surface ≡ false) × (is_null w.device ≡ false) =
        (ground arith, ground arith) in
      let firsts = requests-calls peer.routed k.step i.quiet k.init w.first.0 in
      let seconds = requests-calls peer.routed k.step i.quiet (first_state k w) w.second.0 in
      let thirds = requests-calls peer.routed k.step i.quiet (second_state k w) w.third.0 in
      ap verdict (calls_of k w c f g d)
      ∙ ap (λ rs. peer.succeeded (run peer.step peer.init rs))
          (requests_between peer.routed _ _ _ _ _ firsts seconds thirds)
      ∙ content_held i w.device w.surface (k.seat (third_state k w))
          (k.compositor (third_state k w)) d.1 d.0 n

-- ===== src/DataDeviceClient/Status.antt =====
-- src/bench/data-device-interop-client.c: when the client exits with success.
use wayring.Base.{
  ℕ, ◌≡◌, refl, sym, ap, ◌∙◌, Bool, false, not, ◌&&◌, Option, none, some, List, [], ◌∷◌, ◌++◌,
  arith,
}
use wayring.Bench.{is_null}
use wayring.Bench.History.{run, run-append}
use wayring.Bench.Tallies.{any-append}
use wayring.Bench.Texts.{is_read}
use wayring.DataDeviceClient.{
  Client, Event, create_data_source, get_data_device, create_surface, step, init,
}
use wayring.DataDeviceClient.Answers.{
  is_drop, has_announced, has_answers, has_globals-run, is_answered-run, pipe-run,
}
use wayring.DataDeviceClient.Main.{
  World, Running, dispatch, has_globals, is_answered, started, before_cleanup, does, requests,
  read_offer, after_surfaces, after_globals, cleanup, data_device_client_fd,
}

abbrev first_state : World → Client
first_state w = run step init w.first.0

abbrev second_state : World → Client
second_state w = run step (first_state w) w.second.0

abbrev third_state : World → Client
third_state w = run step (second_state w) w.third.0

read_status :
    (fd : Option ℕ) (arrived : Option (List ℕ)) (p : Running)
    → p.state.offer_read_fd ≡ fd
    → p.status ≡ false
    → (read_offer arrived p).status ≡ not (is_null fd) && is_read arrived "wayring-drag-offer"
unfolding read_offer
read_status none arrived p e f = rw (e, read_offer) f
read_status (some fd) arrived p e f = rw (e, read_offer) refl

read_status_of :
    (arrived : Option (List ℕ)) (p : Running)
    → p.status ≡ false
    → (read_offer arrived p).status
      ≡ not (is_null p.state.offer_read_fd) && is_read arrived "wayring-drag-offer"
read_status_of arrived p f = read_status p.state.offer_read_fd arrived p refl f

abbrev reading : World → Client → Bool
reading w c = not (is_null c.offer_read_fd) && is_read w.arrived "wayring-drag-offer"

surfaces_status :
    (w : World) (p : Running)
    → p.status ≡ false
    → let two = run step p.state w.second.0 in
      (after_surfaces w p).status
      ≡ (not (is_null w.origin) && not (is_null w.icon))
        && ((w.second.1 && is_answered two) && (w.third.1 && reading w (run step two w.third.0)))
unfolding after_surfaces
surfaces_status w p f = ground (
  arith,
  read_status_of w.arrived (dispatch w.third.0 (dispatch w.second.0 (does (requests w) p))) f,
)

globals_status :
    (w : World) (p : Running)
    → p.status ≡ false
    → let two = run step p.state w.second.0 in
      (after_globals w p).status
      ≡ (not (is_null w.source) && not (is_null w.device))
        && ((not (is_null w.origin) && not (is_null w.icon))
            && ((w.second.1 && is_answered two)
                && (w.third.1 && reading w (run step two w.third.0))))
unfolding after_globals
globals_status w p f = ground (
  arith,
  surfaces_status w
      (does (create_surface ∷ create_surface ∷ [])
        (record (does (create_data_source ∷ get_data_device ∷ [])
          (record p { made_source = w.source; made_device = w.device })) {
            made_origin = w.origin;
            made_icon = w.icon;
          }))
      f,
)

before_status :
    (w : World)
    → (before_cleanup w).status
      ≡ (w.first.1 && has_globals (first_state w))
        && ((not (is_null w.source) && not (is_null w.device))
            && ((not (is_null w.origin) && not (is_null w.icon))
                && ((w.second.1 && is_answered (second_state w))
                    && (w.third.1 && reading w (third_state w)))))
unfolding before_cleanup
before_status w = ground (arith, globals_status w (dispatch w.first.0 started) refl)

status_of_states :
    (w : World)
    → (data_device_client_fd w).0
      ≡ w.connected
        && ((w.first.1 && has_globals (first_state w))
            && ((not (is_null w.source) && not (is_null w.device))
                && ((not (is_null w.origin) && not (is_null w.icon))
                    && ((w.second.1 && is_answered (second_state w))
                        && (w.third.1 && reading w (third_state w))))))
unfolding data_device_client_fd cleanup
status_of_states w = ground (arith, before_status w)

-- The events by the end of the second roundtrip.
abbrev pub seen : World → List Event
seen w = w.first.0 ++ w.second.0

answers_seen : (w : World) → is_answered (second_state w) ≡ has_answers (seen w)
answers_seen w =
    ap is_answered (sym (run-append step init w.first.0 w.second.0)) ∙ is_answered-run (seen w)

-- A drop that the client has seen leaves it with a pipe.
pipe_seen :
    (w : World)
    → has_answers (seen w) && not (is_null (third_state w).offer_read_fd) ≡ has_answers (seen w)
pipe_seen w = ground (
  arith,
  ap (λ (c : Client). not (is_null c.offer_read_fd)) (run-append step init (seen w) w.third.0),
  ap (λ (c : Client). not (is_null (run step c w.third.0).offer_read_fd))
      (run-append step init w.first.0 w.second.0),
  pipe-run (seen w ++ w.third.0),
  any-append is_drop (seen w) w.third.0,
)

pub status_iff :
    (w : World)
    → (data_device_client_fd w).0
      ≡ w.connected
        && ((w.first.1 && has_announced w.first.0)
            && ((not (is_null w.source) && not (is_null w.device))
                && ((not (is_null w.origin) && not (is_null w.icon))
                    && ((w.second.1 && has_answers (seen w))
                        && (w.third.1 && is_read w.arrived "wayring-drag-offer")))))
status_iff w =
    status_of_states w ∙ ground (arith, has_globals-run w.first.0, answers_seen w, pipe_seen w)

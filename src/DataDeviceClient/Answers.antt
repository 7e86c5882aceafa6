-- ===== src/DataDeviceClient/Answers.antt =====
-- src/bench/data-device-interop-client.c: what the client has noted, read off the events alone.
use wayring.Base.{
  ◌==◌, if◌then◌else◌, ℕ, ◌≡◌, refl, ap, ◌∙◌, Bool, true, false, not, ◌&&◌, ◌||◌, Option, none,
  some, List, [], ◌∷◌, arith,
}
use Prim.Native.String.{String}
use wayring.Bench.{same, is_null, minus, has_cloexec_bit}
use wayring.Bench.History.{run}
use wayring.Bench.Tallies.{any, flag-run}
use wayring.Bench.Texts.{streq, is_text, is_written}
use wayring.DataDeviceClient.{
  Client, Event, offers_type, offers_source_actions, offers_action, targets, sends, drop_performs,
  finishes, acts, offers, enters, leaves, moves, drops, global, step, init,
}
use wayring.DataDeviceClient.Main.{has_globals, is_answered}

-- The events that the client waits for, one test for each.
abbrev pub is_sent : Event → Bool
is_sent (sends mime fd flags written) =
    streq mime "text/plain" && (has_cloexec_bit flags && is_written written "libwayland-selection")
is_sent _ = false

abbrev pub is_target : Event → Bool
is_target (targets mime) = is_text mime "text/plain"
is_target _ = false

abbrev pub is_dropped : Event → Bool
is_dropped drop_performs = true
is_dropped _ = false

abbrev pub is_finished : Event → Bool
is_finished finishes = true
is_finished _ = false

abbrev pub is_action : Event → Bool
is_action (acts a) = a == 2
is_action _ = false

abbrev pub is_type : Event → Bool
is_type (offers_type mime) = streq mime "text/plain"
is_type _ = false

abbrev pub is_source_actions : Event → Bool
is_source_actions (offers_source_actions a) = a == 3
is_source_actions _ = false

abbrev pub is_offered_action : Event → Bool
is_offered_action (offers_action a) = a == 2
is_offered_action _ = false

abbrev pub is_motion : Event → Bool
is_motion (moves time x y) = (time == 300) && ((x == 512) && (y == 768))
is_motion _ = false

-- A drop for which the pipe could be made.
abbrev pub is_drop : Event → Bool
is_drop (drops (some pipe)) = true
is_drop _ = false

abbrev pub is_leave : Event → Bool
is_leave leaves = true
is_leave _ = false

-- Whether the drag enters a surface at the right place with the offer that was announced last.
unfoldable pub enters_with : Option ℕ → List Event → Bool
enters_with offer [] = false
enters_with offer (offers next ∷ es) = enters_with next es
enters_with offer (enters serial surface x y o ∷ es) =
    ((serial == 99)
      && (not (is_null surface) && ((x == 384) && ((y == minus 512) && same o offer))))
    || enters_with offer es
enters_with offer (_ ∷ es) = enters_with offer es

-- What the last announcement of an interface was bound to.
unfoldable pub bound_last : (String → Bool) → Option ℕ → List Event → Option ℕ
bound_last named before [] = before
bound_last named before (global interface bound ∷ es) =
    bound_last named (if named interface then bound else before) es
bound_last named before (_ ∷ es) = bound_last named before es

abbrev pub is_seat : String → Bool
is_seat interface = streq interface "wl_seat"

abbrev pub is_manager : String → Bool
is_manager interface = not (is_seat interface) && streq interface "wl_data_device_manager"

abbrev pub is_compositor : String → Bool
is_compositor interface =
    not (is_seat interface)
    && (not (streq interface "wl_data_device_manager") && streq interface "wl_compositor")

-- What one event does to each flag.
step_flags :
    (e : Event) (c : Client)
    → ((step e c).0.sent ≡ is_sent e || c.sent)
      × ((step e c).0.target ≡ is_target e || c.target)
      × ((step e c).0.drop_performed ≡ is_dropped e || c.drop_performed)
      × ((step e c).0.finished ≡ is_finished e || c.finished)
      × ((step e c).0.action ≡ is_action e || c.action)
      × ((step e c).0.mime_offered ≡ is_type e || c.mime_offered)
      × ((step e c).0.source_actions_offered ≡ is_source_actions e || c.source_actions_offered)
      × ((step e c).0.action_offered ≡ is_offered_action e || c.action_offered)
      × ((step e c).0.motion ≡ is_motion e || c.motion)
      × ((step e c).0.drop ≡ is_drop e || c.drop)
      × ((step e c).0.leave ≡ is_leave e || c.leave)
      × (not (is_null (step e c).0.offer_read_fd) ≡ is_drop e || not (is_null c.offer_read_fd))
unfolding step
step_flags (drops none) c = ground arith
step_flags (drops (some (reading, writing))) c = ground arith
step_flags _ c = ground arith

enters_next :
    (e : Event) (es : List Event) (c : Client)
    → enters_with (step e c).0.offer es || (step e c).0.enter
      ≡ enters_with c.offer (e ∷ es) || c.enter
unfolding enters_with step
enters_next (offers o) es c = refl
enters_next (enters serial surface x y o) es c = ground arith
enters_next (drops none) es c = refl
enters_next (drops (some (reading, writing))) es c = refl
enters_next _ es c = ground arith

enters-run :
    (es : List Event) (c : Client) → (run step c es).enter ≡ enters_with c.offer es || c.enter
unfolding run enters_with
enters-run [] c = refl
enters-run (e ∷ es) c = enters-run es (step e c).0 ∙ enters_next e es c

module _ (field : Client → Option ℕ) (named : String → Bool)
    (each : (e : Event) (c : Client)
      → field (step e c).0 ≡ bound_last named (field c) (e ∷ [])) where
  bound_next :
      (e : Event) (es : List Event) (before : Option ℕ)
      → bound_last named (bound_last named before (e ∷ [])) es ≡ bound_last named before (e ∷ es)
  unfolding bound_last
  bound_next (global interface bound) es before = refl
  bound_next _ es before = refl

  bound-run : (es : List Event) (c : Client) → field (run step c es) ≡ bound_last named (field c) es
  unfolding run bound_last
  bound-run [] c = refl
  bound-run (e ∷ es) c =
      bound-run es (step e c).0
      ∙ ap (λ b. bound_last named b es) (each e c)
      ∙ bound_next e es (field c)

step_globals :
    (e : Event) (c : Client)
    → ((step e c).0.seat ≡ bound_last is_seat c.seat (e ∷ []))
      × ((step e c).0.manager ≡ bound_last is_manager c.manager (e ∷ []))
      × ((step e c).0.compositor ≡ bound_last is_compositor c.compositor (e ∷ []))
unfolding step bound_last
step_globals (global interface bound) c = ground arith
step_globals (drops none) c = (refl, refl, refl)
step_globals (drops (some (reading, writing))) c = (refl, refl, refl)
step_globals _ c = ground arith

abbrev binds_last : (String → Bool) → List Event → Bool
binds_last named es = not (is_null (bound_last named none es))

-- The three globals were announced and bound.
abbrev pub has_announced : List Event → Bool
has_announced es =
    binds_last is_seat es && (binds_last is_manager es && binds_last is_compositor es)

-- Each event that the client waits for came, in any order but for the offer that the drag enters with.
abbrev pub has_answers : List Event → Bool
has_answers es =
    any is_sent es
    && (any is_target es
        && (any is_dropped es
            && (any is_finished es
                && (any is_action es
                    && (any is_type es
                        && (any is_source_actions es
                            && (any is_offered_action es
                                && (enters_with none es
                                    && (any is_motion es
                                        && (any is_drop es && any is_leave es))))))))))

pub has_globals-run : (es : List Event) → has_globals (run step init es) ≡ has_announced es
has_globals-run es = ground (
  arith,
  bound-run (λ c. c.seat) is_seat (λ e c. (step_globals e c).0) es init,
  bound-run (λ c. c.manager) is_manager (λ e c. (step_globals e c).1) es init,
  bound-run (λ c. c.compositor) is_compositor (λ e c. (step_globals e c).2) es init,
)

-- The flag of a test, after all events.
module _ (es : List Event) where
  noted :
      (flag : Client → Bool) (test : Event → Bool)
      → ((e : Event) (c : Client) → flag (step e c).0 ≡ test e || flag c)
      → flag init ≡ false
      → flag (run step init es) ≡ any test es
  noted flag test each start = flag-run step flag test each es init ∙ ground (arith, start)

  pub is_answered-run : is_answered (run step init es) ≡ has_answers es
  is_answered-run = ground (
    arith,
    noted (λ c. c.sent) is_sent (λ e c. (step_flags e c).0) refl,
    noted (λ c. c.target) is_target (λ e c. (step_flags e c).1) refl,
    noted (λ c. c.drop_performed) is_dropped (λ e c. (step_flags e c).2) refl,
    noted (λ c. c.finished) is_finished (λ e c. (step_flags e c).3) refl,
    noted (λ c. c.action) is_action (λ e c. (step_flags e c).4) refl,
    noted (λ c. c.mime_offered) is_type (λ e c. (step_flags e c).5) refl,
    noted (λ c. c.source_actions_offered) is_source_actions (λ e c. (step_flags e c).6) refl,
    noted (λ c. c.action_offered) is_offered_action (λ e c. (step_flags e c).7) refl,
    noted (λ c. c.motion) is_motion (λ e c. (step_flags e c).8) refl,
    noted (λ c. c.drop) is_drop (λ e c. (step_flags e c).9) refl,
    noted (λ c. c.leave) is_leave (λ e c. (step_flags e c).10) refl,
    enters-run es init,
  )

  pub pipe-run : not (is_null (run step init es).offer_read_fd) ≡ any is_drop es
  pipe-run = noted (λ c. not (is_null c.offer_read_fd)) is_drop (λ e c. (step_flags e c).11) refl

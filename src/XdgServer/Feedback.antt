-- ===== src/XdgServer/Feedback.antt =====
-- src/bench/xdg-interop-server.c: how the presentation feedbacks of a client are answered.
use wayring.Base.{
  ◌==◌, if◌then◌else◌, Bool-cases, ◌+◌, ◌-◌, min, ◌≡◌, inl, inr, Bool, true, false, none, some,
  List, [], ◌∷◌, arith,
}
use wayring.Bench.{Effect, send}
use wayring.Bench.History.{run, calls}
use wayring.Bench.Tallies.{tally, tally-append, counter-run}
use wayring.XdgServer.{
  XdgServer, Request, asks_feedback, binds_presentation, binds_wm_base, gets_toplevel, Event,
  presented, discarded, step, init, succeeded,
}

abbrev pub is_presented : Effect Event → Bool
is_presented (send (presented _ _)) = true
is_presented _ = false

abbrev pub is_discarded : Effect Event → Bool
is_discarded (send (discarded _)) = true
is_discarded _ = false

-- A request for a feedback whose resource could be made.
abbrev pub is_feedback : Request → Bool
is_feedback (asks_feedback (some _)) = true
is_feedback _ = false

step_count :
    (r : Request) (s : XdgServer)
    → (step r s).0.feedback_count ≡ (if is_feedback r then 1 else 0) + s.feedback_count
unfolding step
step_count (asks_feedback none) s = omega arith
step_count (asks_feedback (some c)) s = omega arith
step_count (binds_presentation none) s = omega arith
step_count (binds_presentation (some c)) s = omega arith
step_count (binds_wm_base none) s = omega arith
step_count (binds_wm_base (some c)) s = omega arith
step_count (gets_toplevel r none) s = omega arith
step_count (gets_toplevel r (some c)) s = omega arith
step_count _ s = ground arith

-- One request's answers, by the count before and after it.
abbrev AnswersTo : Request → XdgServer → Type 0
AnswersTo r s =
    (tally is_presented (step r s).1 + min 1 s.feedback_count ≡ min 1 (step r s).0.feedback_count)
    × (tally is_discarded (step r s).1 + min 1 (s.feedback_count - 1)
        ≡ min 1 ((step r s).0.feedback_count - 1))

step_answers : (r : Request) (s : XdgServer) → AnswersTo r s
unfolding step tally
step_answers (asks_feedback none) s = ground arith
step_answers (asks_feedback (some c)) s = elim (Bool-cases (s.feedback_count + 1 == 1)) [
  | inl first ↦ rw first (ground arith)
  | inr later ↦ elim (Bool-cases (s.feedback_count + 1 == 2)) [
    | inl second ↦ rw (later, second) (ground arith)
    | inr last ↦ rw (later, last) (ground arith)
  ]
]
step_answers (binds_presentation none) s = ground arith
step_answers (binds_presentation (some c)) s = ground arith
step_answers (binds_wm_base none) s = ground arith
step_answers (binds_wm_base (some c)) s = ground arith
step_answers (gets_toplevel r none) s = ground arith
step_answers (gets_toplevel r (some c)) s = ground arith
step_answers _ s = ground arith

run_answers :
    (rs : List Request) (s : XdgServer)
    → (tally is_presented (calls step s rs) + min 1 s.feedback_count
        ≡ min 1 (run step s rs).feedback_count)
      × (tally is_discarded (calls step s rs) + min 1 (s.feedback_count - 1)
          ≡ min 1 ((run step s rs).feedback_count - 1))
unfolding run calls tally
run_answers [] s = ground arith
run_answers (r ∷ rs) s = ground (
  arith,
  tally-append is_presented (step r s).1 (calls step (step r s).0 rs),
  tally-append is_discarded (step r s).1 (calls step (step r s).0 rs),
  step_answers r s,
  run_answers rs (step r s).0,
)

-- However many feedbacks a client asks for, one at most is presented and one at most is discarded, each
-- as soon as the client has asked for one, or for two.
pub feedbacks_answered :
    (rs : List Request)
    → (tally is_presented (calls step init rs) ≡ min 1 (tally is_feedback rs))
      × (tally is_discarded (calls step init rs) ≡ min 1 (tally is_feedback rs - 1))
feedbacks_answered rs = ground (
  arith,
  run_answers rs init,
  counter-run step (λ s. s.feedback_count) is_feedback step_count rs init,
)

-- A client that the server calls successful asked for two feedbacks, had the first presented and the
-- second discarded.
pub success_feedbacks :
    (rs : List Request)
    → succeeded (run step init rs) ≡ true
    → (tally is_feedback rs ≡ 2)
      × ((tally is_presented (calls step init rs) ≡ 1)
          × (tally is_discarded (calls step init rs) ≡ 1))
unfolding succeeded
success_feedbacks rs h = ground (
  arith,
  feedbacks_answered rs,
  counter-run step (λ s. s.feedback_count) is_feedback step_count rs init,
)

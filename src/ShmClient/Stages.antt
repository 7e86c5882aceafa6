-- ===== src/ShmClient/Stages.antt =====
-- src/bench/shm-interop-client.c: the stages of a run of the client, and its end if it succeeds.
use wayring.Base.{◌≡◌, refl, ◌∙◌, Bool, true, false, not, ◌&&◌, ◌||◌, none, [], ◌∷◌, ◌++◌, arith}
use wayring.Bench.{is_null}
use wayring.Bench.Branches.{if_false}
use wayring.Bench.History.{run}
use wayring.ShmClient.{ShmClient, step, init, flush}
use wayring.ShmClient.Main.{
  World, Running, has_globals, has_memory, new_buffer, is_shown, dispatch, started, makes_pool,
  makes_buffer, makes_viewport, makes_region, draws, commits, destroys, leave_live, show, make,
  before_cleanup, shm_client_fd,
}

abbrev pub first_state : World → ShmClient
first_state w = run step init w.first.0

abbrev pub second_state : World → ShmClient
second_state w = run step (first_state w) w.second.0

abbrev pub third_state : World → ShmClient
third_state w = run step (second_state w) w.third.0

abbrev pub fourth_state : World → ShmClient
fourth_state w = run step (third_state w) w.fourth.0

live_status :
    (w : World) (p : Running)
    → p.status ≡ false
    → (leave_live w p).status
      ≡ has_memory w.again
        && (not (is_null w.again.pool) && (not (is_null w.again.buffer) && w.flushed))
unfolding leave_live
live_status w p f = ground arith

show_status :
    (w : World) (p : Running)
    → p.status ≡ false
    → (show w p).status
      ≡ not (is_null w.callback)
        && ((w.third.1 && is_shown (run step p.state w.third.0))
            && (w.fourth.1
                && (has_memory w.again
                    && (not (is_null w.again.pool)
                        && (not (is_null w.again.buffer) && w.flushed)))))
unfolding show
show_status w p f =
    ground
      (arith, live_status w (dispatch w.fourth.0 (destroys (dispatch w.third.0 (commits p)))) f)

-- What the calls of the main function have to return, and its roundtrips to bring.
abbrev pub all_shown : World → ShmClient → Bool
all_shown w c =
    not (is_null w.callback)
    && ((w.third.1 && is_shown (run step c w.third.0))
        && (w.fourth.1
            && (has_memory w.again
                && (not (is_null w.again.pool) && (not (is_null w.again.buffer) && w.flushed)))))

abbrev pub all_made : World → Bool
all_made w =
    (has_memory w.memory && not (is_null w.memory.pool))
    && ((not (is_null w.memory.buffer) && not (is_null w.surface))
        && (not (is_null w.viewport) && not (is_null w.region)))

make_status :
    (w : World) (p : Running)
    → p.status ≡ false
    → (make w p).status ≡ all_made w && all_shown w p.state
unfolding make
make_status w p f = ground (
  arith,
  show_status w
      (draws w (makes_region w (makes_viewport w (makes_buffer w (makes_pool w.memory p))))) f,
)

-- The status of a run, by what its calls return and its roundtrips bring.
pub status_of :
    (w : World)
    → (shm_client_fd w).0
      ≡ w.connected
        && ((w.first.1 && has_globals (first_state w))
            && ((w.second.1 && (second_state w).format_seen)
                && (all_made w && all_shown w (second_state w))))
unfolding shm_client_fd before_cleanup
status_of w = ground (arith, make_status w (dispatch w.second.0 (dispatch w.first.0 started)) refl)

-- The end of a run that succeeds.
abbrev left : World → Running → Running
left w p =
    let pooled = makes_pool w.again p in
    record pooled {
      buffer = none;
      pool = none;
      done = (pooled.done ++ (new_buffer w.again ∷ [])) ++ (flush ∷ []);
      status = true;
    }

live_end :
    (w : World) (p : Running)
    → has_memory w.again
        && (not (is_null w.again.pool) && (not (is_null w.again.buffer) && w.flushed))
      ≡ true
    → leave_live w p ≡ left w p
unfolding leave_live
live_end w p h =
    if_false (not (has_memory w.again)) _ _ (ground arith)
    ∙ if_false (is_null w.again.pool) _ _ (ground arith)
    ∙ if_false (is_null w.again.buffer) _ _ (ground arith)
    ∙ if_false (not w.flushed) _ _ (ground arith)

show_end :
    (w : World) (p : Running)
    → all_shown w p.state ≡ true
    → show w p ≡ left w (dispatch w.fourth.0 (destroys (dispatch w.third.0 (commits p))))
unfolding show
show_end w p h =
    if_false (is_null w.callback) _ _ (ground arith)
    ∙ if_false (not w.third.1 || not (is_shown (run step p.state w.third.0))) _ _ (ground arith)
    ∙ if_false (not w.fourth.1) _ _ (ground arith)
    ∙ live_end w (dispatch w.fourth.0 (destroys (dispatch w.third.0 (commits p)))) (ground arith)

abbrev pub drawn : World → Running → Running
drawn w p = draws w (makes_region w (makes_viewport w (makes_buffer w (makes_pool w.memory p))))

make_end :
    (w : World) (p : Running)
    → all_made w && all_shown w p.state ≡ true
    → make w p ≡ left w (dispatch w.fourth.0 (destroys (dispatch w.third.0 (commits (drawn w p)))))
unfolding make
make_end w p h =
    if_false (not (has_memory w.memory)) _ _ (ground arith)
    ∙ if_false (is_null w.memory.pool) _ _ (ground arith)
    ∙ if_false (is_null w.memory.buffer || is_null w.surface) _ _ (ground arith)
    ∙ if_false (is_null w.viewport) _ _ (ground arith)
    ∙ if_false (is_null w.region) _ _ (ground arith)
    ∙ show_end w (drawn w p) (ground arith)

abbrev pub ended : World → Running
ended w = left w (
    dispatch w.fourth.0 (
      destroys (
        dispatch w.third.0 (commits (drawn w (dispatch w.second.0 (dispatch w.first.0 started)))))))

pub before_end :
    (w : World)
    → (w.first.1 && has_globals (first_state w))
        && ((w.second.1 && (second_state w).format_seen)
            && (all_made w && all_shown w (second_state w)))
      ≡ true
    → before_cleanup w ≡ ended w
unfolding before_cleanup
before_end w h =
    if_false (not w.first.1 || not (has_globals (first_state w))) _ _ (ground arith)
    ∙ if_false (not w.second.1 || not (second_state w).format_seen) _ _ (ground arith)
    ∙ make_end w (dispatch w.second.0 (dispatch w.first.0 started)) (ground arith)

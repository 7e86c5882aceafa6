-- ===== src/DataDeviceServer/Causes.antt =====
-- src/bench/data-device-interop-server.c: what the ticks of the server say of the order of the
-- requests.
use wayring.Base.{◌≡◌, refl, ap, true, false, none, some, List, ◌∷◌, ◌++◌, arith}
use wayring.Bench.{refused, is_null, same_eq}
use wayring.Bench.History.{run, run_inv, ticked_by}
use wayring.DataDeviceServer.{DataDeviceServer}
use wayring.DataDeviceServer.Run.{
  Request, start_drag, set_selection, get_device, step, init, succeeded,
}

pub record IsCaused (s : DataDeviceServer) : Type 0 where
  pub sent_with_selection : s.source_sent ≡ s.selection_set
  pub selection_offered : s.selection_set ≡ true → s.source_offered ≡ true
  pub events_with_drag : s.drag_events ≡ s.drag_started
  pub drag_allowed : s.drag_started ≡ true → s.source_actions ≡ true
  pub source_made : s.source_created ≡ true → is_null s.source ≡ false
  pub device_made : s.device_created ≡ true → (is_null s.device ≡ false) × (is_null s.offer ≡ false)
  pub icon_last : is_null s.icon ≡ false → is_null s.origin ≡ false
  pub destination_entered : s.destination_events ≡ true → is_null s.icon ≡ false
  pub pipe_held : is_null s.source_read_fd ≡ false → s.selection_set ≡ true

step-IsCaused : (r : Request) (s : DataDeviceServer) → IsCaused s → IsCaused (step r s).0
unfolding step
step-IsCaused (start_drag a b c d) s i = ground arith
step-IsCaused (set_selection a b none) s i = ground arith
step-IsCaused (set_selection a b (some p)) s i = ground arith
step-IsCaused (get_device none b) s i = ground arith
step-IsCaused (get_device (some a) b) s i = ground arith
step-IsCaused _ s i = ground arith

-- At the end of any history each tick stands with those that it needs, and no object that an event
-- names is NULL once its tick is set.
pub run-IsCaused : (rs : List Request) → IsCaused (run step init rs)
run-IsCaused rs = run_inv step IsCaused step-IsCaused init rs (ground arith)

-- A request that the server refuses leaves its state as it was.
pub refused_leaves :
    (r : Request) (s : DataDeviceServer) → refused (step r s).1 ≡ true → (step r s).0 ≡ s
unfolding step
refused_leaves (start_drag a b c d) s h = ground arith
refused_leaves (set_selection a b none) s h = ground arith
refused_leaves (set_selection a b (some p)) s h = ground arith
refused_leaves (get_device none b) s h = ground arith
refused_leaves (get_device (some a) b) s h = ground arith
refused_leaves _ s h = ground arith

drags_by_drag :
    (r : Request) (s : DataDeviceServer)
    → s.drag_started ≡ false
    → (step r s).0.drag_started ≡ true
    → (r ≡ start_drag s.source s.origin s.icon 88) × (s.source_actions ≡ true)
unfolding step
drags_by_drag (start_drag a b c d) s f t = (
  rw
      (
        same_eq a s.source (ground arith),
        same_eq b s.origin (ground arith),
        same_eq c s.icon (ground arith),
      )
      (ap (start_drag s.source s.origin s.icon) (ground arith)),
  ground arith,
)
drags_by_drag (set_selection a b none) s f t = ground arith
drags_by_drag (set_selection a b (some p)) s f t = ground arith
drags_by_drag (get_device none b) s f t = ground arith
drags_by_drag (get_device (some a) b) s f t = ground arith
drags_by_drag _ s f t = ground arith

-- A client that the server calls successful started, at some point of its requests, a drag of the
-- server's own source, origin and icon, with the serial 88, after it had set the source's actions.
pub success_needs_drag :
    (rs : List Request)
    → succeeded (run step init rs) ≡ true
    → (before : List Request) × (after : List Request) × (let s = run step init before in
        (rs ≡ before ++ (start_drag s.source s.origin s.icon 88 ∷ after))
        × (s.source_actions ≡ true))
unfolding succeeded
success_needs_drag rs h =
    let (before, r, after, e, f, t) =
      ticked_by step (λ s. s.drag_started) rs init refl (ground arith) in
    let (c, allowed) = drags_by_drag r (run step init before) f t in
    (before, after, (rw (← c) e, allowed))

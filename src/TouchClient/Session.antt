-- ===== src/TouchClient/Session.antt =====
-- src/bench/touch-interop-client.c and src/bench/touch-interop-server.c: a run of both.
use wayring.Base.{
  ℕ, ◌≡◌, refl, sym, subst, true, false, ◌&&◌, Option, none, some, List, [], ◌∷◌, ◌++◌, arith,
}
use Prim.{⊥}
use wayring.Bench.{is_null, Effect, send}
use wayring.Bench.History.{run, calls}
use wayring.Bench.Seats.{
  Call, create_surface, get_device, close, device_release, surface_destroy, seat_release,
  compositor_destroy, registry_destroy, flush, disconnect, World, has_globals,
}
use wayring.Bench.Among.{run_all}
use wayring.Bench.Seats.Runs.{ending, Peer, IsPeer, verdict, server_succeeds}
use wayring.Bench.Seats.Served.{Served, IsServing, IsServed, served_succeeds}
use wayring.Bench.Texts.{streq}
use wayring.Bench.Routes.{requests}
use wayring.TouchServer as Server
use wayring.TouchServer.{
  TouchServer, Request, creates_surface, gets_touch, binds_seat, releases_touch, destroys_surface,
  releases_seat,
}
use wayring.TouchClient.{
  TouchClient, Event, has_capabilities, is_named, touches_down, lifts, moves, ends_frame, cancels,
  shapes, orients, global, check, passes, step, touch_client_fd,
}

-- The event that an event of the server is to the client.
unfoldable pub received : Server.Event → Event
received (Server.down touch serial time surface id x y) =
    touches_down serial time (some surface) id x y
received (Server.motion touch time id x y) = moves time id x y
received (Server.shape touch id major minor) = shapes id major minor
received (Server.orientation touch id orientation) = orients id orientation
received (Server.up touch serial time id) = lifts serial time id
received (Server.frame touch) = ends_frame
received (Server.cancel touch) = cancels
received (Server.capabilities seat n) = has_capabilities n
received (Server.name seat n) = is_named n

unfoldable pub delivered : List (Effect Server.Event) → List Event
delivered [] = []
delivered (send e ∷ es) = received e ∷ delivered es
delivered (_ ∷ es) = delivered es

-- An announced global can be bound.
unfoldable pub IsBound : Event → Type 0
IsBound (global interface bound) = is_null bound ≡ false
IsBound _ = Unit

-- Touches and frames beside those of the stream would be counted.
unfoldable pub IsHarmless : Event → Type 0
IsHarmless (global interface bound) = is_null bound ≡ false
IsHarmless (touches_down serial time surface id x y) = ⊥
IsHarmless ends_frame = ⊥
IsHarmless _ = Unit

harmless-IsBound : (e : Event) → IsHarmless e → IsBound e
unfolding IsHarmless IsBound
harmless-IsBound (global interface bound) h = h
harmless-IsBound _ h = tt

-- What the server sends: the resources are those that it made.
abbrev pub served : (compositor seat seat_resource surface touch : ℕ) → Served TouchClient Event
served compositor seat seat_resource surface touch = record {
  IsHarmless = IsHarmless;
  IsFresh = λ c. (c.down ≡ 0) × (c.frames ≡ 0);
  globals = global "wl_compositor" (some compositor) ∷ global "wl_seat" (some seat) ∷ [];
  greeting = delivered (calls Server.step Server.init (binds_seat (some seat_resource) ∷ []));
  stream = delivered (
      calls Server.step Server.init
        (creates_surface (some surface) ∷ gets_touch (some touch) ∷ []));
}

step_globals :
    (e : Event) (s : TouchClient)
    → IsBound e
    → has_globals check s ≡ true
    → has_globals check (step e s).0 ≡ true
unfolding step IsBound
step_globals (global interface bound) s h g = ground arith
step_globals _ s h g = ground arith

step_seat :
    (e : Event) (s : TouchClient)
    → s.capabilities && s.name ≡ true
    → (step e s).0.capabilities && (step e s).0.name ≡ true
unfolding step
step_seat _ s g = ground arith

step_passes :
    (e : Event) (s : TouchClient) → IsHarmless e → passes s ≡ true → passes (step e s).0 ≡ true
unfolding step IsHarmless
step_passes (touches_down serial time surface id x y) s h g = absurd h
step_passes ends_frame s h g = absurd h
step_passes _ s h g = ground arith

-- No touch and no frame was counted.
abbrev pub IsFresh : TouchClient → Type 0
IsFresh c = (c.down ≡ 0) × (c.frames ≡ 0)

step-IsFresh : (e : Event) (s : TouchClient) → IsHarmless e → IsFresh s → IsFresh (step e s).0
unfolding step IsHarmless
step-IsFresh (touches_down serial time surface id x y) s h f = absurd h
step-IsFresh ends_frame s h f = absurd h
step-IsFresh _ s h (d, f) = (ground arith, ground arith)

stream_passes :
    (surface touch : ℕ) (s : TouchClient) (down frames : ℕ)
    → down ≡ 0
    → frames ≡ 0
    → passes (
        run step
          (record s { down = down; frames = frames })
          (delivered (
            calls Server.step Server.init
              (creates_surface (some surface) ∷ gets_touch (some touch) ∷ []))))
      ≡ true
unfolding delivered received step Server.step calls run
stream_passes surface touch s down frames d f =
    let es = delivered (
      calls Server.step Server.init
        (creates_surface (some surface) ∷ gets_touch (some touch) ∷ [])) in
    subst (λ n. passes (run step (record s { down = n; frames = frames }) es) ≡ true) (sym d)
      (subst (λ n. passes (run step (record s { down = 0; frames = n }) es) ≡ true) (sym f) refl)

served-IsServing :
    (compositor seat seat_resource surface touch : ℕ)
    → IsServing check (served compositor seat seat_resource surface touch)
unfolding delivered received IsHarmless IsBound step Server.step calls run streq
served-IsServing compositor seat seat_resource surface touch = record {
  fresh = (refl, refl);
  harmless_globals = (refl, (refl, tt));
  harmless_greeting = (tt, (tt, tt));
  keeps_fresh = step-IsFresh;
  keeps_globals = λ e s h g. step_globals e s (harmless-IsBound e h) g;
  keeps_seat = λ e s h g. step_seat e s g;
  keeps_passes = step_passes;
  announces = λ s. refl;
  greets = λ s. refl;
  streams = λ s f. stream_passes surface touch s s.down s.frames f.0 f.1;
  streams_globals = λ s g.
      run_all step IsBound (λ c. has_globals check c ≡ true) step_globals
        (served compositor seat seat_resource surface touch).stream s
        (tt, (tt, (tt, (tt, (tt, (tt, (tt, (tt, (tt, tt))))))))) g;
}

-- The requests that the server has of a call, with the resources that it made.
unfoldable pub routed : ℕ → ℕ → Call → List Request
routed surface touch create_surface = creates_surface (some surface) ∷ []
routed surface touch get_device = gets_touch (some touch) ∷ []
routed surface touch (close fd) = []
routed surface touch (device_release r) = releases_touch r ∷ []
routed surface touch (surface_destroy r) = destroys_surface r ∷ []
routed surface touch (seat_release r) = releases_seat r ∷ []
routed surface touch (compositor_destroy r) = []
routed surface touch registry_destroy = []
routed surface touch flush = []
routed surface touch disconnect = Server.leaves ∷ []

abbrev pub peer : ℕ → ℕ → Peer TouchServer Request (Effect Server.Event)
peer surface touch = record {
  step = Server.step;
  init = Server.init;
  succeeded = Server.succeeded;
  routed = routed surface touch;
}

step_quiet :
    (surface touch : ℕ) (e : Event) (s : TouchClient)
    → requests (routed surface touch) (step e s).1 ≡ []
unfolding requests step
step_quiet surface touch _ s = ground arith

content :
    (surface touch d u s : ℕ) (c : Option ℕ)
    → Server.succeeded (
        run Server.step Server.init (
          requests (routed surface touch) (create_surface ∷ get_device ∷ [])
          ++ requests (routed surface touch) (ending d u s c)))
      ≡ true
unfolding routed requests Server.step Server.succeeded run
content surface touch d u s none = refl
content surface touch d u s (some c) = refl

peer-IsPeer : (surface touch : ℕ) → IsPeer check (peer surface touch)
peer-IsPeer surface touch = record {
  quiet = step_quiet surface touch;
  content = content surface touch;
}

-- A touch client whose calls succeed, and whose roundtrips bring the events that the server sends,
-- each answer in one piece among others that do no harm, succeeds, and so does the server by its calls.
pub touch_both_succeed :
    (compositor seat seat_resource surface touch : ℕ) (w : World Event)
    → IsServed check (served compositor seat seat_resource surface touch) w
    → ((touch_client_fd w).0 ≡ true)
      × (verdict check (peer surface touch) (touch_client_fd w).1 ≡ true)
unfolding touch_client_fd
touch_both_succeed compositor seat seat_resource surface touch w d =
    let (status, held) =
      served_succeeds check (served compositor seat seat_resource surface touch)
        (served-IsServing compositor seat seat_resource surface touch) w d in
    (status, server_succeeds check (peer surface touch) (peer-IsPeer surface touch) w status held)

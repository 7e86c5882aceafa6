-- ===== src/PointerClient/Session.antt =====
-- src/bench/pointer-interop-client.c and src/bench/pointer-interop-server.c: a run of both.
use wayring.Base.{ℕ, ◌≡◌, refl, true, false, ◌&&◌, Option, none, some, List, [], ◌∷◌, ◌++◌, arith}
use wayring.Bench.{is_null, Effect, send}
use wayring.Bench.History.{run, calls}
use wayring.Bench.Seats.{
  Call, create_surface, get_device, close, device_release, surface_destroy, seat_release,
  compositor_destroy, registry_destroy, flush, disconnect, World, has_globals,
}
use wayring.Bench.Seats.Runs.{ending, Peer, IsPeer, verdict, server_succeeds}
use wayring.Bench.Seats.Served.{Served, IsServing, IsServed, served_succeeds}
use wayring.Bench.Texts.{streq}
use wayring.Bench.Routes.{requests}
use wayring.PointerServer as Server
use wayring.PointerServer.{
  PointerServer, Request, creates_surface, gets_pointer, binds_seat, releases_pointer,
  destroys_surface, releases_seat,
}
use wayring.PointerClient.{
  PointerClient, Event, has_capabilities, is_named, enters, moves, presses, scrolls, frames,
  sources, stops, discretes, values, global, passes, check, step, pointer_client_fd,
}

-- The event that an event of the server is to the client.
unfoldable pub received : Server.Event → Event
received (Server.enter pointer serial surface x y) = enters serial (some surface) x y
received (Server.motion pointer time x y) = moves time x y
received (Server.button pointer serial time button state) = presses serial time button state
received (Server.axis_source pointer source) = sources source
received (Server.axis pointer time axis value) = scrolls time axis value
received (Server.axis_discrete pointer axis discrete) = discretes axis discrete
received (Server.axis_value120 pointer axis value) = values axis value
received (Server.axis_stop pointer time axis) = stops time axis
received (Server.frame pointer) = frames
received (Server.capabilities seat n) = has_capabilities n
received (Server.name seat n) = is_named n

unfoldable pub delivered : List (Effect Server.Event) → List Event
delivered [] = []
delivered (send e ∷ es) = received e ∷ delivered es
delivered (_ ∷ es) = delivered es

-- An announced global can be bound; no other event harms the client.
unfoldable pub IsHarmless : Event → Type 0
IsHarmless (global interface bound) = is_null bound ≡ false
IsHarmless _ = Unit

-- What the server sends: the resources are those that it made.
abbrev pub served : (compositor seat seat_resource surface pointer : ℕ) → Served PointerClient Event
served compositor seat seat_resource surface pointer = record {
  IsHarmless = IsHarmless;
  IsFresh = λ c. Unit;
  globals = global "wl_compositor" (some compositor) ∷ global "wl_seat" (some seat) ∷ [];
  greeting = delivered (calls Server.step Server.init (binds_seat (some seat_resource) ∷ []));
  stream = delivered (
      calls Server.step Server.init
        (creates_surface (some surface) ∷ gets_pointer (some pointer) ∷ []));
}

step_globals :
    (e : Event) (s : PointerClient)
    → IsHarmless e
    → has_globals check s ≡ true
    → has_globals check (step e s).0 ≡ true
unfolding step IsHarmless
step_globals (global interface bound) s h g = ground arith
step_globals _ s h g = ground arith

step_seat :
    (e : Event) (s : PointerClient)
    → s.capabilities && s.name ≡ true
    → (step e s).0.capabilities && (step e s).0.name ≡ true
unfolding step
step_seat _ s g = ground arith

step_passes : (e : Event) (s : PointerClient) → passes s ≡ true → passes (step e s).0 ≡ true
unfolding step
step_passes _ s g = ground arith

served-IsServing :
    (compositor seat seat_resource surface pointer : ℕ)
    → IsServing check (served compositor seat seat_resource surface pointer)
unfolding delivered received IsHarmless step Server.step calls run streq
served-IsServing compositor seat seat_resource surface pointer = record {
  fresh = tt;
  harmless_globals = (refl, (refl, tt));
  harmless_greeting = (tt, (tt, tt));
  keeps_fresh = λ e s h f. tt;
  keeps_globals = step_globals;
  keeps_seat = λ e s h g. step_seat e s g;
  keeps_passes = λ e s h g. step_passes e s g;
  announces = λ s. refl;
  greets = λ s. refl;
  streams = λ s f. refl;
  streams_globals = λ s g. g;
}

-- The requests that the server has of a call, with the resources that it made.
unfoldable pub routed : ℕ → ℕ → Call → List Request
routed surface pointer create_surface = creates_surface (some surface) ∷ []
routed surface pointer get_device = gets_pointer (some pointer) ∷ []
routed surface pointer (close fd) = []
routed surface pointer (device_release r) = releases_pointer r ∷ []
routed surface pointer (surface_destroy r) = destroys_surface r ∷ []
routed surface pointer (seat_release r) = releases_seat r ∷ []
routed surface pointer (compositor_destroy r) = []
routed surface pointer registry_destroy = []
routed surface pointer flush = []
routed surface pointer disconnect = Server.leaves ∷ []

abbrev pub peer : ℕ → ℕ → Peer PointerServer Request (Effect Server.Event)
peer surface pointer = record {
  step = Server.step;
  init = Server.init;
  succeeded = Server.succeeded;
  routed = routed surface pointer;
}

step_quiet :
    (surface pointer : ℕ) (e : Event) (s : PointerClient)
    → requests (routed surface pointer) (step e s).1 ≡ []
unfolding requests step
step_quiet surface pointer _ s = ground arith

content :
    (surface pointer d u s : ℕ) (c : Option ℕ)
    → Server.succeeded (
        run Server.step Server.init (
          requests (routed surface pointer) (create_surface ∷ get_device ∷ [])
          ++ requests (routed surface pointer) (ending d u s c)))
      ≡ true
unfolding routed requests Server.step Server.succeeded run
content surface pointer d u s none = refl
content surface pointer d u s (some c) = refl

peer-IsPeer : (surface pointer : ℕ) → IsPeer check (peer surface pointer)
peer-IsPeer surface pointer = record {
  quiet = step_quiet surface pointer;
  content = content surface pointer;
}

-- A pointer client whose calls succeed, and whose roundtrips bring the events that the server sends,
-- each answer in one piece among others that do no harm, succeeds, and so does the server by its calls.
pub pointer_both_succeed :
    (compositor seat seat_resource surface pointer : ℕ) (w : World Event)
    → IsServed check (served compositor seat seat_resource surface pointer) w
    → ((pointer_client_fd w).0 ≡ true)
      × (verdict check (peer surface pointer) (pointer_client_fd w).1 ≡ true)
unfolding pointer_client_fd
pointer_both_succeed compositor seat seat_resource surface pointer w d =
    let (status, held) =
      served_succeeds check (served compositor seat seat_resource surface pointer)
        (served-IsServing compositor seat seat_resource surface pointer) w d in
    (
      status,
      server_succeeds check (peer surface pointer) (peer-IsPeer surface pointer) w status held,
    )

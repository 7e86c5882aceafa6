-- ===== src/KeyboardClient/Session.antt =====
-- src/bench/keyboard-interop-client.c and src/bench/keyboard-interop-server.c: a run of both.
use wayring.Base.{ℕ, ◌≡◌, refl, true, false, ◌&&◌, Option, none, some, List, [], ◌∷◌, ◌++◌, arith}
use wayring.Bench.{is_null, Effect, send}
use wayring.Bench.History.{run, calls}
use wayring.Bench.Seats.{
  Call, create_surface, get_device, close, device_release, surface_destroy, seat_release,
  compositor_destroy, registry_destroy, flush, disconnect, World, has_globals,
}
use wayring.Bench.Seats.Runs.{ending, Peer, IsPeer, verdict, server_succeeds}
use wayring.Bench.Seats.Served.{Served, IsServing, IsServed, served_succeeds}
use wayring.Bench.Texts.{streq, c_bytes, memeq}
use wayring.Bench.Routes.{requests}
use wayring.KeyboardServer as Server
use wayring.KeyboardServer.{
  KeyboardServer, Request, Made, creates_surface, gets_keyboard, binds_seat, releases_keyboard,
  destroys_surface, releases_seat,
}
use wayring.KeyboardClient.{
  KeyboardClient, Event, has_capabilities, is_named, brings_keymap, enters, leaves, presses,
  modifies, repeats, global, check, passes, step, keyboard_client_fd,
}

-- The events that an event of the server is to the client. It has the keymap by a descriptor of its own
-- of the memory file that the server has written, and reads the whole of it.
unfoldable pub received : ℕ → Server.Event → List Event
received fd (Server.repeat_info keyboard rate delay) = repeats rate delay ∷ []
received fd (Server.keymap keyboard format there size) =
    brings_keymap format fd size (some (c_bytes "xkb_keymap {}")) (some 1) ∷ []
received fd (Server.enter keyboard serial surface keys) = enters serial (some surface) keys ∷ []
received fd (Server.modifiers keyboard (serial ∷ d ∷ l ∷ k ∷ g ∷ [])) = modifies serial d l k g ∷ []
received fd (Server.modifiers keyboard _) = []
received fd (Server.key keyboard serial time key state) = presses serial time key state ∷ []
received fd (Server.leave keyboard serial surface) = leaves serial (some surface) ∷ []
received fd (Server.capabilities seat n) = has_capabilities n ∷ []
received fd (Server.name seat n) = is_named n ∷ []

unfoldable pub delivered : ℕ → List (Effect Server.Event) → List Event
delivered fd [] = []
delivered fd (send e ∷ es) = received fd e ++ delivered fd es
delivered fd (_ ∷ es) = delivered fd es

-- An announced global can be bound; no other event harms the client.
unfoldable pub IsHarmless : Event → Type 0
IsHarmless (global interface bound) = is_null bound ≡ false
IsHarmless _ = Unit

-- What a get_keyboard request makes, `there` being the server's descriptor of the keymap.
abbrev pub made : ℕ → ℕ → Made
made keyboard there = record {
  keyboard = some keyboard;
  keymap_fd = some there;
  written = some 14;
  sought = true;
}

-- What the server sends: the resources are those that it made.
abbrev pub served :
    (compositor seat seat_resource surface keyboard fd there : ℕ) → Served KeyboardClient Event
served compositor seat seat_resource surface keyboard fd there = record {
  IsHarmless = IsHarmless;
  IsFresh = λ c. Unit;
  globals = global "wl_compositor" (some compositor) ∷ global "wl_seat" (some seat) ∷ [];
  greeting = delivered fd (calls Server.step Server.init (binds_seat (some seat_resource) ∷ []));
  stream = delivered fd (
      calls Server.step Server.init
        (creates_surface (some surface) ∷ gets_keyboard (made keyboard there) ∷ []));
}

step_globals :
    (e : Event) (s : KeyboardClient)
    → IsHarmless e
    → has_globals check s ≡ true
    → has_globals check (step e s).0 ≡ true
unfolding step IsHarmless
step_globals (global interface bound) s h g = ground arith
step_globals _ s h g = ground arith

step_seat :
    (e : Event) (s : KeyboardClient)
    → s.capabilities && s.name ≡ true
    → (step e s).0.capabilities && (step e s).0.name ≡ true
unfolding step
step_seat _ s g = ground arith

step_passes : (e : Event) (s : KeyboardClient) → passes s ≡ true → passes (step e s).0 ≡ true
unfolding step
step_passes _ s g = ground arith

served-IsServing :
    (compositor seat seat_resource surface keyboard fd there : ℕ)
    → IsServing check (served compositor seat seat_resource surface keyboard fd there)
unfolding delivered received IsHarmless step Server.step calls run streq memeq
served-IsServing compositor seat seat_resource surface keyboard fd there = record {
  fresh = tt;
  harmless_globals = (refl, (refl, tt));
  harmless_greeting = (tt, (tt, tt));
  keeps_fresh = λ e s h f. tt;
  keeps_globals = step_globals;
  keeps_seat = λ e s h g. step_seat e s g;
  keeps_passes = λ e s h g. step_passes e s g;
  announces = λ s. refl;
  greets = λ s. refl;
  streams = λ s f. refl;
  streams_globals = λ s g. g;
}

-- The requests that the server has of a call, with the resources that it made.
unfoldable pub routed : ℕ → ℕ → ℕ → Call → List Request
routed surface keyboard there create_surface = creates_surface (some surface) ∷ []
routed surface keyboard there get_device = gets_keyboard (made keyboard there) ∷ []
routed surface keyboard there (close fd) = []
routed surface keyboard there (device_release r) = releases_keyboard r ∷ []
routed surface keyboard there (surface_destroy r) = destroys_surface r ∷ []
routed surface keyboard there (seat_release r) = releases_seat r ∷ []
routed surface keyboard there (compositor_destroy r) = []
routed surface keyboard there registry_destroy = []
routed surface keyboard there flush = []
routed surface keyboard there disconnect = Server.leaves ∷ []

abbrev pub peer : ℕ → ℕ → ℕ → Peer KeyboardServer Request (Effect Server.Event)
peer surface keyboard there = record {
  step = Server.step;
  init = Server.init;
  succeeded = Server.succeeded;
  routed = routed surface keyboard there;
}

step_quiet :
    (surface keyboard there : ℕ) (e : Event) (s : KeyboardClient)
    → requests (routed surface keyboard there) (step e s).1 ≡ []
unfolding requests routed step
step_quiet surface keyboard there _ s = ground arith

content :
    (surface keyboard there d u s : ℕ) (c : Option ℕ)
    → Server.succeeded (
        run Server.step Server.init (
          requests (routed surface keyboard there) (create_surface ∷ get_device ∷ [])
          ++ requests (routed surface keyboard there) (ending d u s c)))
      ≡ true
unfolding routed requests Server.step Server.succeeded run
content surface keyboard there d u s none = refl
content surface keyboard there d u s (some c) = refl

peer-IsPeer : (surface keyboard there : ℕ) → IsPeer check (peer surface keyboard there)
peer-IsPeer surface keyboard there = record {
  quiet = step_quiet surface keyboard there;
  content = content surface keyboard there;
}

-- A keyboard client whose calls succeed, and whose roundtrips bring the events that the server sends,
-- each answer in one piece among others that do no harm, succeeds, and so does the server by its calls.
pub keyboard_both_succeed :
    (compositor seat seat_resource surface keyboard fd there : ℕ) (w : World Event)
    → IsServed check (served compositor seat seat_resource surface keyboard fd there) w
    → ((keyboard_client_fd w).0 ≡ true)
      × (verdict check (peer surface keyboard there) (keyboard_client_fd w).1 ≡ true)
unfolding keyboard_client_fd
keyboard_both_succeed compositor seat seat_resource surface keyboard fd there w d =
    let (status, held) =
      served_succeeds check (served compositor seat seat_resource surface keyboard fd there)
        (served-IsServing compositor seat seat_resource surface keyboard fd there) w d in
    (
      status,
      server_succeeds check (peer surface keyboard there) (peer-IsPeer surface keyboard there) w
          status held,
    )

-- ===== src/Bench/Seats.antt =====
-- The run of the clients of the pointer, keyboard and touch checks. Their main functions have the same
-- text but for the device that they ask the seat for, its handlers and the last test.
pub mod Runs
pub mod Served
use wayring.Base.{
  if◌then◌else◌, ℕ, Bool, false, not, ◌&&◌, ◌||◌, Option, none, some, List, [], ◌∷◌, ◌++◌,
}
use wayring.Bench.{is_null}
use wayring.Bench.History.{run, calls}

-- What a client asks of the server and of the kernel.
pub data Call : Type 0 where
  create_surface get_device : Call
  close device_release surface_destroy seat_release compositor_destroy : ℕ → Call
  registry_destroy flush disconnect : Call

-- What the clients differ in: the state `S`, the events `E` that the listeners route and what their
-- handlers do, where the state has its globals, and the tests of the second and third roundtrip.
pub record Check (S E : Type 0) : Type 0 where
  pub step : E → S → S × List Call
  pub init : S
  pub compositor : S → Option ℕ
  pub seat : S → Option ℕ
  pub is_seat : S → Bool
  pub passes : S → Bool

-- What a wl_display_roundtrip dispatches, and whether it succeeds.
abbrev pub Roundtrip : Type 0 → Type 0
Roundtrip E = List E × Bool

-- What the calls of the main function return.
pub record World (E : Type 0) : Type 0 where
  pub connected : Bool
  pub first : Roundtrip E
  pub second : Roundtrip E
  pub surface : Option ℕ
  pub device : Option ℕ
  pub third : Roundtrip E

-- The client in the middle of its run: what it made, and what it did.
pub record Running (S : Type 0) : Type 0 where
  pub state : S
  pub made_surface : Option ℕ
  pub made_device : Option ℕ
  pub done : List Call
  pub status : Bool

abbrev pub held : (ℕ → Call) → Option ℕ → List Call
held destroy none = []
held destroy (some r) = destroy r ∷ []

module _ {S E : Type 0} (k : Check S E) where
  -- The events of a roundtrip, in order.
  abbrev pub dispatch : List E → Running S → Running S
  dispatch es p = record p {
    state = run k.step p.state es;
    done = p.done ++ calls k.step p.state es;
  }

  abbrev pub started : Running S
  started = record {
    state = k.init;
    made_surface = none;
    made_device = none;
    done = [];
    status = false;
  }

  abbrev pub has_globals : S → Bool
  has_globals s = not (is_null (k.compositor s)) && not (is_null (k.seat s))

  -- The surface and the device.
  abbrev pub makes : World E → Running S → Running S
  makes w p = record p {
    made_surface = w.surface;
    made_device = w.device;
    done = p.done ++ (create_surface ∷ get_device ∷ []);
  }

  -- The run up to the label `cleanup`.
  unfoldable pub before_cleanup : World E → Running S
  before_cleanup w =
      let p = dispatch w.first.0 started in
      let q = dispatch w.second.0 p in
      let made = makes w q in
      let r = dispatch w.third.0 made in
      if not w.first.1 || not (has_globals p.state)
      then p
      else if not w.second.1 || not (k.is_seat q.state)
      then q
      else if is_null w.surface || is_null w.device
      then made
      else record r { status = w.third.1 && k.passes r.state }

  -- The label `cleanup`.
  unfoldable pub cleanup : Running S → List Call
  cleanup p =
      held device_release p.made_device
      ++ (held surface_destroy p.made_surface
          ++ (held seat_release (k.seat p.state)
              ++ (held compositor_destroy (k.compositor p.state)
                  ++ (registry_destroy ∷ flush ∷ disconnect ∷ []))))

  -- The status, EXIT_SUCCESS being true, and the calls.
  unfoldable pub seat_client_fd : World E → Bool × List Call
  seat_client_fd w =
      let p = before_cleanup w in
      if w.connected then (p.status, p.done ++ cleanup p) else (false, [])

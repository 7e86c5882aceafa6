-- ===== src/DataDeviceClient/Main.antt =====
-- src/bench/data-device-interop-client.c: `data_device_client_fd`.
use wayring.Base.{
  if◌then◌else◌, ℕ, Bool, false, not, ◌&&◌, ◌||◌, Option, none, some, List, [], ◌∷◌, ◌++◌,
}
use wayring.Bench.{is_null}
use wayring.Bench.History.{run, calls}
use wayring.Bench.Texts.{is_read}
use wayring.DataDeviceServer.{copy_or_move}
use wayring.DataDeviceClient.{
  Client, Call, create_data_source, get_data_device, create_surface, source_offer,
  source_set_actions, device_set_selection, device_start_drag, close, offer_destroy, source_destroy,
  device_release, surface_destroy, manager_destroy, seat_release, compositor_destroy,
  registry_destroy, flush, disconnect, Event, step, init,
}

-- What a wl_display_roundtrip dispatches, and whether it succeeds.
abbrev pub Roundtrip : Type 0
Roundtrip = List Event × Bool

-- What the calls of `data_device_client_fd` return.
pub record World : Type 0 where
  pub connected : Bool
  pub first : Roundtrip
  pub source : Option ℕ
  pub device : Option ℕ
  pub origin : Option ℕ
  pub icon : Option ℕ
  pub second : Roundtrip
  pub third : Roundtrip
  pub arrived : Option (List ℕ)

-- The client in the middle of its run: what it made, and what it did.
pub record Running : Type 0 where
  pub state : Client
  pub made_source : Option ℕ
  pub made_device : Option ℕ
  pub made_origin : Option ℕ
  pub made_icon : Option ℕ
  pub done : List Call
  pub status : Bool

-- The events of a roundtrip, in order.
abbrev pub dispatch : List Event → Running → Running
dispatch es p = record p { state = run step p.state es; done = p.done ++ calls step p.state es }

abbrev pub does : List Call → Running → Running
does calls p = record p { done = p.done ++ calls }

abbrev pub has_globals : Client → Bool
has_globals c = not (is_null c.seat) && (not (is_null c.manager) && not (is_null c.compositor))

-- The test after the second roundtrip.
abbrev pub is_answered : Client → Bool
is_answered c =
    (c.sent && (c.target && (c.drop_performed && (c.finished && (c.action && c.mime_offered)))))
    && (c.source_actions_offered
        && (c.action_offered && (c.enter && (c.motion && (c.drop && c.leave)))))

abbrev pub close_held : Option ℕ → List Call
close_held none = []
close_held (some fd) = close fd ∷ []

abbrev held : (ℕ → Call) → Option ℕ → List Call
held destroy none = []
held destroy (some r) = destroy r ∷ []

-- The label `cleanup`.
unfoldable pub cleanup : Running → Running
cleanup p =
    does
      (close_held p.state.offer_read_fd
        ++ (held offer_destroy p.state.offer
            ++ (held source_destroy p.made_source
                ++ (held device_release p.made_device
                    ++ (held surface_destroy p.made_icon
                        ++ (held surface_destroy p.made_origin
                            ++ (held manager_destroy p.state.manager
                                ++ (held seat_release p.state.seat
                                    ++ (held compositor_destroy p.state.compositor
                                        ++ (registry_destroy ∷ flush ∷ disconnect ∷ []))))))))))
      p

-- What is read of the offer's pipe decides the status.
unfoldable pub read_offer : Option (List ℕ) → Running → Running
read_offer arrived p = elim p.state.offer_read_fd [
  | none ↦ p
  | some fd ↦ record p {
    state = record p.state { offer_read_fd = none };
    done = p.done ++ (close fd ∷ []);
    status = is_read arrived "wayring-drag-offer";
  }
]

abbrev pub requests : World → List Call
requests w =
    source_offer "text/plain"
    ∷ source_set_actions copy_or_move
    ∷ device_set_selection w.source 77
    ∷ device_start_drag w.source w.origin w.icon 88
    ∷ []

unfoldable pub after_surfaces : World → Running → Running
after_surfaces w p =
    if is_null w.origin || is_null w.icon
    then p
    else let q = dispatch w.second.0 (does (requests w) p) in
      let r = dispatch w.third.0 q in
      if not w.second.1 || not (is_answered q.state)
      then q
      else if not w.third.1
      then r
      else read_offer w.arrived r

unfoldable pub after_globals : World → Running → Running
after_globals w p =
    let made =
      does (create_data_source ∷ get_data_device ∷ [])
        (record p { made_source = w.source; made_device = w.device }) in
    if is_null w.source || is_null w.device
    then made
    else after_surfaces w (
        does (create_surface ∷ create_surface ∷ [])
          (record made { made_origin = w.origin; made_icon = w.icon }))

abbrev pub started : Running
started = record {
  state = init;
  made_source = none;
  made_device = none;
  made_origin = none;
  made_icon = none;
  done = [];
  status = false;
}

-- The run up to the label `cleanup`.
unfoldable pub before_cleanup : World → Running
before_cleanup w =
    let p = dispatch w.first.0 started in
    if not w.first.1 || not (has_globals p.state) then p else after_globals w p

-- The status, EXIT_SUCCESS being true, and the calls.
unfoldable pub data_device_client_fd : World → Bool × List Call
data_device_client_fd w =
    let p = cleanup (before_cleanup w) in if w.connected then (p.status, p.done) else (false, [])

-- ===== src/DataDeviceClient/Cleanup.antt =====
-- src/bench/data-device-interop-client.c: what the client gives back at the label `cleanup`, wherever
-- it came from.
use wayring.Base.{
  Option-cases, ℕ, ◌≡◌, refl, ap, ◌∙◌, inl, inr, true, Option, none, some, List, [], ◌∷◌, ◌++◌,
  append-nil, arith,
}
use wayring.Bench.History.{calls}
use wayring.DataDeviceClient.{
  Client, Call, create_data_source, get_data_device, create_surface, offer_destroy, source_destroy,
  device_release, surface_destroy, manager_destroy, seat_release, compositor_destroy, Event, drops,
  close, registry_destroy, flush, disconnect, step,
}
use wayring.DataDeviceClient.Main.{
  World, Running, dispatch, started, before_cleanup, close_held, does, requests, read_offer,
  after_surfaces, after_globals, cleanup, data_device_client_fd,
}

-- The calls that give an object back.
unfoldable pub destroyed : List Call → List Call
destroyed [] = []
destroyed (offer_destroy r ∷ cs) = offer_destroy r ∷ destroyed cs
destroyed (source_destroy r ∷ cs) = source_destroy r ∷ destroyed cs
destroyed (device_release r ∷ cs) = device_release r ∷ destroyed cs
destroyed (surface_destroy r ∷ cs) = surface_destroy r ∷ destroyed cs
destroyed (manager_destroy r ∷ cs) = manager_destroy r ∷ destroyed cs
destroyed (seat_release r ∷ cs) = seat_release r ∷ destroyed cs
destroyed (compositor_destroy r ∷ cs) = compositor_destroy r ∷ destroyed cs
destroyed (_ ∷ cs) = destroyed cs

abbrev if_made : (ℕ → Call) → Option ℕ → List Call
if_made destroy none = []
if_made destroy (some r) = destroy r ∷ []

-- What the client owns, in the order in which it is to be given back.
abbrev pub owned : Running → List Call
owned p =
    if_made offer_destroy p.state.offer
    ++ (if_made source_destroy p.made_source
        ++ (if_made device_release p.made_device
            ++ (if_made surface_destroy p.made_icon
                ++ (if_made surface_destroy p.made_origin
                    ++ (if_made manager_destroy p.state.manager
                        ++ (if_made seat_release p.state.seat
                            ++ if_made compositor_destroy p.state.compositor))))))

abbrev owned_then : Running → List Call → List Call
owned_then p rest =
    if_made offer_destroy p.state.offer
    ++ (if_made source_destroy p.made_source
        ++ (if_made device_release p.made_device
            ++ (if_made surface_destroy p.made_icon
                ++ (if_made surface_destroy p.made_origin
                    ++ (if_made manager_destroy p.state.manager
                        ++ (if_made seat_release p.state.seat
                            ++ (if_made compositor_destroy p.state.compositor ++ rest)))))))

destroyed-append : (cs ds : List Call) → destroyed cs ≡ [] → destroyed (cs ++ ds) ≡ destroyed ds
unfolding destroyed
destroyed-append [] ds e = refl
destroyed-append (offer_destroy r ∷ cs) ds e = cc
destroyed-append (source_destroy r ∷ cs) ds e = cc
destroyed-append (device_release r ∷ cs) ds e = cc
destroyed-append (surface_destroy r ∷ cs) ds e = cc
destroyed-append (manager_destroy r ∷ cs) ds e = cc
destroyed-append (seat_release r ∷ cs) ds e = cc
destroyed-append (compositor_destroy r ∷ cs) ds e = cc
destroyed-append (_ ∷ cs) ds e = destroyed-append cs ds e

destroyed-step : (e : Event) (c : Client) → destroyed (step e c).1 ≡ []
unfolding destroyed step
destroyed-step (drops none) c = refl
destroyed-step (drops (some p)) c = refl
destroyed-step _ c = ground arith

nothing : destroyed [] ≡ []
unfolding destroyed
nothing = refl

destroyed-calls : (es : List Event) (c : Client) → destroyed (calls step c es) ≡ []
unfolding calls
destroyed-calls [] c = nothing
destroyed-calls (e ∷ es) c =
    destroyed-append (step e c).1 (calls step (step e c).0 es) (destroyed-step e c)
    ∙ destroyed-calls es (step e c).0

close_only : (fd : ℕ) → destroyed (close fd ∷ []) ≡ []
unfolding destroyed
close_only fd = refl

making : destroyed (create_data_source ∷ get_data_device ∷ []) ≡ []
unfolding destroyed
making = refl

surfacing : destroyed (create_surface ∷ create_surface ∷ []) ≡ []
unfolding destroyed
surfacing = refl

requests_only : (w : World) → destroyed (requests w) ≡ []
unfolding destroyed
requests_only w = refl

abbrev IsClean : Running → Type 0
IsClean p = destroyed p.done ≡ []

dispatch-IsClean : (es : List Event) (p : Running) → IsClean p → IsClean (dispatch es p)
dispatch-IsClean es p i =
    destroyed-append p.done (calls step p.state es) i ∙ destroyed-calls es p.state

does-IsClean : (cs : List Call) (p : Running) → destroyed cs ≡ [] → IsClean p → IsClean (does cs p)
does-IsClean cs p e i = destroyed-append p.done cs i ∙ e

read_offer-IsClean :
    (arrived : Option (List ℕ)) (p : Running) → IsClean p → IsClean (read_offer arrived p)
unfolding read_offer
read_offer-IsClean arrived p i = elim (Option-cases p.state.offer_read_fd) [
  | inl e ↦ rw (e, read_offer) i
  | inr (fd, e) ↦ rw (e, read_offer) (destroyed-append p.done (close fd ∷ []) i ∙ close_only fd)
]

surfaces-IsClean : (w : World) (p : Running) → IsClean p → IsClean (after_surfaces w p)
unfolding after_surfaces
surfaces-IsClean w p i =
    let q = dispatch w.second.0 (does (requests w) p) in
    let r = dispatch w.third.0 q in
    let q_clean : IsClean q =
      dispatch-IsClean w.second.0 (does (requests w) p)
        (does-IsClean (requests w) p (requests_only w) i) in
    let r_clean : IsClean r = dispatch-IsClean w.third.0 q q_clean in
    ground (arith, read_offer-IsClean w.arrived r r_clean)

globals-IsClean : (w : World) (p : Running) → IsClean p → IsClean (after_globals w p)
unfolding after_globals
globals-IsClean w p i =
    let made : Running =
      does (create_data_source ∷ get_data_device ∷ [])
        (record p { made_source = w.source; made_device = w.device }) in
    let made_clean : IsClean made =
      does-IsClean (create_data_source ∷ get_data_device ∷ [])
        (record p { made_source = w.source; made_device = w.device }) making i in
    let surfaced : Running =
      does (create_surface ∷ create_surface ∷ [])
        (record made { made_origin = w.origin; made_icon = w.icon }) in
    let surfaced_clean : IsClean surfaced =
      does-IsClean (create_surface ∷ create_surface ∷ [])
        (record made { made_origin = w.origin; made_icon = w.icon }) surfacing made_clean in
    ground (arith, surfaces-IsClean w surfaced surfaced_clean)

before_cleanup-IsClean : (w : World) → IsClean (before_cleanup w)
unfolding before_cleanup
before_cleanup-IsClean w =
    let p : Running = dispatch w.first.0 started in
    let p_clean : IsClean p = dispatch-IsClean w.first.0 started nothing in
    ground (arith, globals-IsClean w p p_clean)

-- A call that gives back is kept.
kept :
    (destroy : ℕ → Call)
    → ((r : ℕ) (cs : List Call) → destroyed (destroy r ∷ cs) ≡ destroy r ∷ destroyed cs)
    → (made : Option ℕ) (cs ds : List Call) → destroyed cs ≡ ds
    → destroyed (if_made destroy made ++ cs) ≡ if_made destroy made ++ ds
kept destroy keep none cs ds e = e
kept destroy keep (some r) cs ds e = keep r cs ∙ ap (◌∷◌ (destroy r)) e

closed_left : (fd : Option ℕ) (cs : List Call) → destroyed (close_held fd ++ cs) ≡ destroyed cs
unfolding destroyed
closed_left none cs = refl
closed_left (some r) cs = refl

ended : destroyed (registry_destroy ∷ flush ∷ disconnect ∷ []) ≡ []
unfolding destroyed
ended = refl

destroyed_held :
    (fd offer source device icon origin manager seat compositor : Option ℕ)
    → destroyed (
        close_held fd
        ++ (if_made offer_destroy offer
            ++ (if_made source_destroy source
                ++ (if_made device_release device
                    ++ (if_made surface_destroy icon
                        ++ (if_made surface_destroy origin
                            ++ (if_made manager_destroy manager
                                ++ (if_made seat_release seat
                                    ++ (if_made compositor_destroy compositor
                                        ++ (registry_destroy ∷ flush ∷ disconnect ∷ []))))))))))
      ≡ if_made offer_destroy offer
        ++ (if_made source_destroy source
            ++ (if_made device_release device
                ++ (if_made surface_destroy icon
                    ++ (if_made surface_destroy origin
                        ++ (if_made manager_destroy manager
                            ++ (if_made seat_release seat
                                ++ if_made compositor_destroy compositor))))))
unfolding destroyed
destroyed_held fd offer source device icon origin manager seat compositor =
    closed_left fd _
    ∙ (kept offer_destroy (λ r cs. refl) offer _ _
        (kept source_destroy (λ r cs. refl) source _ _
          (kept device_release (λ r cs. refl) device _ _
            (kept surface_destroy (λ r cs. refl) icon _ _
              (kept surface_destroy (λ r cs. refl) origin _ _
                (kept manager_destroy (λ r cs. refl) manager _ _
                  (kept seat_release (λ r cs. refl) seat _ _
                    (kept compositor_destroy (λ r cs. refl) compositor _ [] ended
                      ∙ append-nil (if_made compositor_destroy compositor)))))))))

abbrev label : Running → List Call
label p =
    close_held p.state.offer_read_fd ++ owned_then p (registry_destroy ∷ flush ∷ disconnect ∷ [])

calls_of :
    (w : World)
    → w.connected ≡ true
    → (data_device_client_fd w).1 ≡ (cleanup (before_cleanup w)).done
unfolding data_device_client_fd
calls_of w c = ground arith

destroyed_done : (p : Running) → destroyed (cleanup p).done ≡ destroyed (p.done ++ label p)
unfolding cleanup
destroyed_done p = refl

-- Wherever a connected client's run comes to its cleanup, the objects that it gives back, over its
-- whole run, are those that it owns there, each once and in the order of the label.
pub destroyed-run :
    (w : World)
    → w.connected ≡ true
    → destroyed (data_device_client_fd w).1 ≡ owned (before_cleanup w)
destroyed-run w c =
    let p = before_cleanup w in
    ap destroyed (calls_of w c)
    ∙ destroyed_done p
    ∙ destroyed-append p.done (label p) (before_cleanup-IsClean w)
    ∙ destroyed_held p.state.offer_read_fd p.state.offer p.made_source p.made_device p.made_icon
        p.made_origin p.state.manager p.state.seat p.state.compositor

-- ===== src/ShmClient/Session.antt =====
-- src/bench/shm-interop-client.c and src/bench/shm-interop-server.c: a run of both.
use wayring.Base.{
  ℕ, ◌≡◌, refl, sym, ap, ◌∙◌, true, false, Option, none, some, List, [], ◌∷◌, ◌++◌, append_assoc,
  arith,
}
use wayring.Bench.{is_null, minus, fixed}
use wayring.Bench.History.{run}
use wayring.Bench.Routes.{requests, requests-append, requests-calls}
use wayring.ShmServer.{ShmServer}
use wayring.ShmServer.Run as Run
use wayring.ShmServer.Run.{Request}
use wayring.ShmClient.{
  ShmClient, Call, create_pool, create_buffer, create_surface, create_region, frame, get_viewport,
  region_add, region_subtract, damage, damage_buffer, set_source, attach, set_opaque_region,
  set_input_region, set_buffer_transform, set_buffer_scale, set_destination, offset, commit, close,
  callback_destroy, region_destroy, viewport_destroy, surface_destroy, buffer_destroy, pool_destroy,
  shm_destroy, compositor_destroy, viewporter_destroy, registry_destroy, flush, disconnect, Event,
  releases, dones, formats, global, global_remove, step, init,
}
use wayring.ShmClient.Main.{World, Running, held, before_cleanup, cleanup, shm_client_fd}
use wayring.ShmClient.Stages.{
  first_state, second_state, third_state, fourth_state, status_of, before_end,
}
use wayring.ShmClient.Served.{from_start_succeeds}

abbrev on : (ℕ → Request) → Option ℕ → List Request
on request none = []
on request (some r) = request r ∷ []

-- The requests that reach the server's handlers by a call. The object's id stands for its resource, and
-- the descriptor that the server has is open and closed on exec. wl_shm and wl_compositor have no request
-- to destroy them.
unfoldable pub routed : Call → List Request
routed (create_pool fd size made) = on (λ n. Run.create_pool n size (some 1) made) fd
routed (create_buffer off width height stride fmt made) =
    Run.create_buffer off width height stride fmt made ∷ []
routed (create_surface made) = Run.create_surface made ∷ []
routed (create_region made) = Run.create_region made ∷ []
routed (frame made) = Run.frame made ∷ []
routed (get_viewport surface made) = Run.get_viewport surface made ∷ []
routed (region_add x y w h) = Run.add x y w h ∷ []
routed (region_subtract x y w h) = Run.subtract x y w h ∷ []
routed (damage x y w h) = Run.damage x y w h ∷ []
routed (damage_buffer x y w h) = Run.damage_buffer x y w h ∷ []
routed (set_source x y w h) = Run.source x y w h ∷ []
routed (attach b x y) = Run.attach b x y ∷ []
routed (set_opaque_region r) = Run.opaque_region r ∷ []
routed (set_input_region r) = Run.input_region r ∷ []
routed (set_buffer_transform t) = Run.buffer_transform t ∷ []
routed (set_buffer_scale n) = Run.buffer_scale n ∷ []
routed (set_destination w h) = Run.destination w h ∷ []
routed (offset x y) = Run.offset x y ∷ []
routed commit = Run.commit ∷ []
routed (close fd) = []
routed (callback_destroy r) = []
routed (region_destroy r) = Run.region_destroyed r ∷ []
routed (viewport_destroy r) = Run.viewport_destroyed r ∷ []
routed (surface_destroy r) = Run.surface_destroyed r ∷ []
routed (buffer_destroy r) = Run.buffer_destroyed r ∷ []
routed (pool_destroy r) = Run.pool_destroyed r ∷ []
routed (shm_destroy r) = []
routed (compositor_destroy r) = []
routed (viewporter_destroy r) = Run.viewporter_destroyed r ∷ []
routed registry_destroy = []
routed flush = []
routed disconnect = Run.client_destroyed ∷ []

step_quiet : (e : Event) (c : ShmClient) → requests routed (step e c).1 ≡ []
unfolding requests routed step
step_quiet releases c = refl
step_quiet (dones callback time) c = refl
step_quiet (formats f) c = refl
step_quiet (global interface bound) c = refl
step_quiet global_remove c = refl

abbrev asked : List Call → List Request
asked cs = requests routed cs

-- The requests of a run, without the calls of its event handlers.
flatten :
    (a b p q v g d k c x e n m f z : List Call)
    → asked a ≡ []
    → asked b ≡ []
    → asked c ≡ []
    → asked e ≡ []
    → asked (
        (((((((((((((a ++ b) ++ p) ++ q) ++ v) ++ g) ++ d) ++ k) ++ c) ++ x) ++ e) ++ n) ++ m) ++ f)
        ++ z)
      ≡ asked p
        ++ (asked q
            ++ (asked v
                ++ (asked g
                    ++ (asked d
                        ++ (asked k
                            ++ (asked x ++ (asked n ++ (asked m ++ (asked f ++ asked z)))))))))
flatten a b p q v g d k c x e n m f z ha hb hc he =
    simp (requests-append, ha, hb, hc, he, append_assoc)

-- The requests of a run that comes to its end, by what its calls return.
abbrev requested :
    (fd pool buffer surface viewport region callback fd' pool' buffer' : Option ℕ)
    → List Request
    → List Request
requested fd pool buffer surface viewport region callback fd' pool' buffer' ending =
    asked (create_pool fd 4096 pool ∷ held close fd)
    ++ (asked (create_buffer 0 2 2 8 0 buffer ∷ create_surface surface ∷ [])
        ++ (asked (get_viewport surface viewport ∷ [])
            ++ (asked (create_region region ∷ [])
                ++ (asked (
                      region_add 1 2 3 4
                      ∷ region_subtract 5 6 7 8
                      ∷ attach buffer 0 0
                      ∷ damage 1 2 3 4
                      ∷ set_opaque_region region
                      ∷ set_input_region region
                      ∷ set_buffer_transform 1
                      ∷ set_buffer_scale 2
                      ∷ set_source (fixed 0) (fixed 0) (fixed 1) (fixed 1)
                      ∷ set_destination 3 4
                      ∷ offset 2 (minus 3)
                      ∷ frame callback
                      ∷ [])
                    ++ (asked (damage_buffer 5 6 7 8 ∷ commit ∷ [])
                        ++ (asked (
                              held region_destroy region
                              ++ (held viewport_destroy viewport
                                  ++ (held surface_destroy surface
                                      ++ (held buffer_destroy buffer ++ held pool_destroy pool))))
                            ++ (asked (create_pool fd' 4096 pool' ∷ held close fd')
                                ++ (asked (create_buffer 0 2 2 8 0 buffer' ∷ [])
                                    ++ (asked (flush ∷ []) ++ ending)))))))))

requested_succeeds :
    (fd pool buffer surface viewport region callback fd' pool' buffer' : Option ℕ)
    (ending : List Request)
    → (is_null fd ≡ false) × (is_null pool ≡ false)
    → (is_null buffer ≡ false) × (is_null surface ≡ false)
    → (is_null viewport ≡ false) × (is_null region ≡ false)
    → is_null callback ≡ false
    → is_null fd' ≡ false
    → (is_null pool' ≡ false) × (is_null buffer' ≡ false)
    → ((s : ShmServer) → Run.succeeded s ≡ true → Run.succeeded (run Run.step s ending) ≡ true)
    → Run.succeeded (
        run Run.step Run.init
          (requested fd pool buffer surface viewport region callback fd' pool' buffer' ending))
      ≡ true
unfolding requests routed
requested_succeeds none p b u v g k fd' p' b' e (h, i) j l m n o keeps = absurd (cc)
requested_succeeds (some f) none b u v g k fd' p' b' e (h, i) j l m n o keeps = absurd (cc)
requested_succeeds (some f) (some p) none u v g k fd' p' b' e h (j, i) l m n o keeps = absurd (cc)
requested_succeeds (some f) (some p) (some b) none v g k fd' p' b' e h (j, i) l m n o keeps =
    absurd (cc)
requested_succeeds (some f) (some p) (some b) (some u) none g k fd' p' b' e h j (l, i) m n o keeps =
    absurd (cc)
requested_succeeds (some f) (some p) (some b) (some u) (some v) none k fd' p' b' e h j (l, i) m n o
      keeps =
    absurd (cc)
requested_succeeds (some f) (some p) (some b) (some u) (some v) (some g) none fd' p' b' e h j l m n
      o keeps =
    absurd (cc)
requested_succeeds (some f) (some p) (some b) (some u) (some v) (some g) (some k) none p' b' e h j l
      m n o keeps =
    absurd (cc)
requested_succeeds (some f) (some p) (some b) (some u) (some v) (some g) (some k) (some f') none b'
      e h j l m n (o, i) keeps =
    absurd (cc)
requested_succeeds (some f) (some p) (some b) (some u) (some v) (some g) (some k) (some f')
      (some p') none e h j l m n (o, i) keeps =
    absurd (cc)
requested_succeeds (some f) (some p) (some b) (some u) (some v) (some g) (some k) (some f')
      (some p') (some b') e h j l m n o keeps =
    from_start_succeeds b u v g k p f' p' b' e f keeps

-- What the client destroys at the end leaves the server's flags alone.
ending_keeps :
    (shm compositor viewporter : Option ℕ) (s : ShmServer)
    → Run.succeeded s ≡ true
    → Run.succeeded (
        run Run.step s (
          asked (
            held shm_destroy shm
            ++ (held compositor_destroy compositor
                ++ (held viewporter_destroy viewporter
                    ++ (registry_destroy ∷ flush ∷ disconnect ∷ []))))))
      ≡ true
unfolding requests routed run Run.step
ending_keeps none none none s e = e
ending_keeps none none (some v) s e = e
ending_keeps none (some c) none s e = e
ending_keeps none (some c) (some v) s e = e
ending_keeps (some h) none none s e = e
ending_keeps (some h) none (some v) s e = e
ending_keeps (some h) (some c) none s e = e
ending_keeps (some h) (some c) (some v) s e = e

calls_of :
    (w : World)
    → w.connected ≡ true
    → (shm_client_fd w).1 ≡ (before_cleanup w).done ++ cleanup (before_cleanup w)
unfolding shm_client_fd
calls_of w c = rw c refl

-- If a run of the SHM client succeeds, the server succeeds by its calls.
pub shm_both_succeed :
    (w : World)
    → (shm_client_fd w).0 ≡ true
    → Run.succeeded (run Run.step Run.init (requests routed (shm_client_fd w).1)) ≡ true
unfolding cleanup
shm_both_succeed w s =
    let e = sym (status_of w) ∙ s in
    let c : w.connected ≡ true = ground arith in
    let last = before_end w (ground arith) in
    let quiet = requests-calls routed step step_quiet in
    let t = fourth_state w in
    ap (λ cs. Run.succeeded (run Run.step Run.init (asked cs))) (calls_of w c)
    ∙ ap (λ (p : Running). Run.succeeded (run Run.step Run.init (asked (p.done ++ cleanup p)))) last
    ∙ ap (λ rs. Run.succeeded (run Run.step Run.init rs))
        (flatten _ _ _ _ _ _ _ _ _ _ _ _ _ _ _ (quiet init w.first.0)
          (quiet (first_state w) w.second.0) (quiet (second_state w) w.third.0)
          (quiet (third_state w) w.fourth.0))
    ∙ requested_succeeds w.memory.fd w.memory.pool w.memory.buffer w.surface w.viewport w.region
        w.callback w.again.fd w.again.pool w.again.buffer _ (ground arith, ground arith)
        (ground arith, ground arith) (ground arith, ground arith) (ground arith) (ground arith)
        (ground arith, ground arith) (ending_keeps t.shm t.compositor t.viewporter)

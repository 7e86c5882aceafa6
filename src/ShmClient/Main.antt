-- ===== src/ShmClient/Main.antt =====
-- src/bench/shm-interop-client.c: `shm_client_fd`.
use wayring.Base.{
  if◌then◌else◌, ℕ, Bool, true, false, not, ◌&&◌, ◌||◌, Option, none, some, List, [], ◌∷◌, ◌++◌,
}
use wayring.Bench.{is_null, minus, fixed}
use wayring.Bench.History.{run, calls}
use wayring.ShmClient.{
  ShmClient, Call, create_pool, create_buffer, create_surface, create_region, frame, get_viewport,
  region_add, region_subtract, damage, damage_buffer, set_source, attach, set_opaque_region,
  set_input_region, set_buffer_transform, set_buffer_scale, set_destination, offset, commit, close,
  callback_destroy, region_destroy, viewport_destroy, surface_destroy, buffer_destroy, pool_destroy,
  shm_destroy, compositor_destroy, viewporter_destroy, registry_destroy, flush, disconnect, Event,
  step, init,
}

-- What a wl_display_roundtrip dispatches, and whether it succeeds.
abbrev pub Roundtrip : Type 0
Roundtrip = List Event × Bool

-- What memfd_create and ftruncate return, and the calls that make a pool and its buffer.
pub record Memory : Type 0 where
  pub fd : Option ℕ
  pub truncated : Bool
  pub pool : Option ℕ
  pub buffer : Option ℕ

-- What the calls of `shm_client_fd` return.
pub record World : Type 0 where
  pub connected : Bool
  pub first : Roundtrip
  pub second : Roundtrip
  pub memory : Memory
  pub surface : Option ℕ
  pub viewport : Option ℕ
  pub region : Option ℕ
  pub callback : Option ℕ
  pub third : Roundtrip
  pub fourth : Roundtrip
  pub again : Memory
  pub flushed : Bool

-- The client in the middle of its run: its local variables, and what it did.
pub record Running : Type 0 where
  pub state : ShmClient
  pub memory_fd : Option ℕ
  pub pool : Option ℕ
  pub buffer : Option ℕ
  pub surface : Option ℕ
  pub region : Option ℕ
  pub callback : Option ℕ
  pub viewport : Option ℕ
  pub done : List Call
  pub status : Bool

-- The events of a roundtrip, in order.
abbrev pub dispatch : List Event → Running → Running
dispatch es p = record p { state = run step p.state es; done = p.done ++ calls step p.state es }

abbrev pub held : (ℕ → Call) → Option ℕ → List Call
held destroy none = []
held destroy (some r) = destroy r ∷ []

abbrev pub has_globals : ShmClient → Bool
has_globals c = not (is_null c.shm) && (not (is_null c.compositor) && not (is_null c.viewporter))

-- The memory file could be made, and has its size.
abbrev pub has_memory : Memory → Bool
has_memory m = not (is_null m.fd) && m.truncated

abbrev pub makes_pool : Memory → Running → Running
makes_pool m p = record p {
  pool = m.pool;
  memory_fd = none;
  done = p.done ++ (create_pool m.fd 4096 m.pool ∷ held close m.fd);
}

abbrev pub new_buffer : Memory → Call
new_buffer m = create_buffer 0 2 2 8 0 m.buffer

abbrev pub makes_buffer : World → Running → Running
makes_buffer w p = record p {
  buffer = w.memory.buffer;
  surface = w.surface;
  done = p.done ++ (new_buffer w.memory ∷ create_surface w.surface ∷ []);
}

abbrev pub makes_viewport : World → Running → Running
makes_viewport w p = record p {
  viewport = w.viewport;
  done = p.done ++ (get_viewport w.surface w.viewport ∷ []);
}

abbrev pub makes_region : World → Running → Running
makes_region w p = record p { region = w.region; done = p.done ++ (create_region w.region ∷ []) }

-- The surface's state up to its frame callback. WL_OUTPUT_TRANSFORM_90 is 1.
abbrev pub draws : World → Running → Running
draws w p = record p {
  callback = w.callback;
  done =
      p.done
      ++ (region_add 1 2 3 4
          ∷ region_subtract 5 6 7 8
          ∷ attach w.memory.buffer 0 0
          ∷ damage 1 2 3 4
          ∷ set_opaque_region w.region
          ∷ set_input_region w.region
          ∷ set_buffer_transform 1
          ∷ set_buffer_scale 2
          ∷ set_source (fixed 0) (fixed 0) (fixed 1) (fixed 1)
          ∷ set_destination 3 4
          ∷ offset 2 (minus 3)
          ∷ frame w.callback
          ∷ []);
}

abbrev pub commits : Running → Running
commits p = record p { done = p.done ++ (damage_buffer 5 6 7 8 ∷ commit ∷ []) }

abbrev pub is_shown : ShmClient → Bool
is_shown c = c.buffer_released && c.frame_done

-- What was shown is destroyed and forgotten; the callback has been destroyed by its handler.
abbrev pub destroys : Running → Running
destroys p = record p {
  callback = none;
  region = none;
  viewport = none;
  surface = none;
  buffer = none;
  pool = none;
  done =
      p.done
      ++ (held region_destroy p.region
          ++ (held viewport_destroy p.viewport
              ++ (held surface_destroy p.surface
                  ++ (held buffer_destroy p.buffer ++ held pool_destroy p.pool))));
}

-- A second pool and buffer, which stay alive.
unfoldable pub leave_live : World → Running → Running
leave_live w p =
    let pooled = makes_pool w.again p in
    let buffered = record pooled {
      buffer = w.again.buffer;
      done = pooled.done ++ (new_buffer w.again ∷ []);
    } in
    let flushed = record buffered { done = buffered.done ++ (flush ∷ []) } in
    if not (has_memory w.again)
    then record p { memory_fd = w.again.fd }
    else if is_null w.again.pool
    then pooled
    else if is_null w.again.buffer
    then buffered
    else if not w.flushed
    then flushed
    else record flushed { buffer = none; pool = none; status = true }

-- From the frame callback to the second pool.
unfoldable pub show : World → Running → Running
show w p =
    let shown = dispatch w.third.0 (commits p) in
    let destroyed = dispatch w.fourth.0 (destroys shown) in
    if is_null w.callback
    then p
    else if not w.third.1 || not (is_shown shown.state)
    then shown
    else if not w.fourth.1
    then destroyed
    else leave_live w destroyed

-- From the memory file to the frame callback.
unfoldable pub make : World → Running → Running
make w p =
    let pooled = makes_pool w.memory p in
    let buffered = makes_buffer w pooled in
    let viewed = makes_viewport w buffered in
    let bounded = makes_region w viewed in
    if not (has_memory w.memory)
    then record p { memory_fd = w.memory.fd }
    else if is_null w.memory.pool
    then pooled
    else if is_null w.memory.buffer || is_null w.surface
    then buffered
    else if is_null w.viewport
    then viewed
    else if is_null w.region
    then bounded
    else show w (draws w bounded)

abbrev pub started : Running
started = record {
  state = init;
  memory_fd = none;
  pool = none;
  buffer = none;
  surface = none;
  region = none;
  callback = none;
  viewport = none;
  done = [];
  status = false;
}

-- The run up to the label `cleanup`.
unfoldable pub before_cleanup : World → Running
before_cleanup w =
    let p = dispatch w.first.0 started in
    let q = dispatch w.second.0 p in
    if not w.first.1 || not (has_globals p.state)
    then p
    else if not w.second.1 || not q.state.format_seen
    then q
    else make w q

-- The label `cleanup`.
unfoldable pub cleanup : Running → List Call
cleanup p =
    held close p.memory_fd
    ++ (held buffer_destroy p.buffer
        ++ (held pool_destroy p.pool
            ++ (held callback_destroy p.callback
                ++ (held viewport_destroy p.viewport
                    ++ (held surface_destroy p.surface
                        ++ (held region_destroy p.region
                            ++ (held shm_destroy p.state.shm
                                ++ (held compositor_destroy p.state.compositor
                                    ++ (held viewporter_destroy p.state.viewporter
                                        ++ (registry_destroy ∷ flush ∷ disconnect ∷ []))))))))))

-- The status, EXIT_SUCCESS being true, and the calls.
unfoldable pub shm_client_fd : World → Bool × List Call
shm_client_fd w =
    let p = before_cleanup w in if w.connected then (p.status, p.done ++ cleanup p) else (false, [])

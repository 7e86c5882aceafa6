-- ===== src/DmabufClient/Main.antt =====
-- src/bench/dmabuf-interop-client.c: `dmabuf_client_fd`.
use wayring.Base.{
  if◌then◌else◌, ℕ, Bool, true, false, not, ◌&&◌, ◌||◌, Option, none, some, List, [], ◌∷◌, ◌++◌,
}
use wayring.Bench.{is_null}
use wayring.Bench.History.{run}
use wayring.DmabufServer.{drm_format_argb8888, drm_format_mod_invalid_hi, drm_format_mod_invalid_lo}
use wayring.DmabufClient.{
  DmabufClient, Call, create_params, add, create_immed, create, close, buffer_destroy,
  params_destroy, dmabuf_destroy, registry_destroy, flush, disconnect, Event, step, init,
}

-- What a wl_display_roundtrip dispatches, and whether it succeeds.
abbrev pub Roundtrip : Type 0
Roundtrip = List Event × Bool

-- What the calls of a loop on wl_display_dispatch bring; `none` where one fails.
abbrev pub Dispatches : Type 0
Dispatches = List (Option (List Event))

-- What memfd_create, ftruncate and the call that makes the params return.
pub record Memory : Type 0 where
  pub fd : Option ℕ
  pub truncated : Bool
  pub params : Option ℕ

-- What the calls of `dmabuf_client_fd` return.
pub record World : Type 0 where
  pub connected : Bool
  pub first : Roundtrip
  pub second : Roundtrip
  pub immediate : Memory
  pub buffer : Option ℕ
  pub third : Roundtrip
  pub fourth : Roundtrip
  pub async : Memory
  pub until_created : Dispatches
  pub fifth : Roundtrip
  pub failure : Memory
  pub until_failed : Dispatches
  pub sixth : Roundtrip

-- The client in the middle of its run: its local variables, and what it did. Its status is `none` while
-- it waits for a dispatch.
pub record Running : Type 0 where
  pub state : DmabufClient
  pub memory_fd : Option ℕ
  pub params : Option ℕ
  pub buffer : Option ℕ
  pub done : List Call
  pub status : Option Bool

-- The events of a roundtrip, in order.
abbrev pub dispatch : List Event → Running → Running
dispatch es p = record p { state = run step p.state es }

-- A loop on wl_display_dispatch: the state behind it, and whether it ended without an error.
unfoldable pub wait_until :
    (DmabufClient → Bool) → Dispatches → DmabufClient → DmabufClient × Option Bool
wait_until ends [] c = (c, if ends c then some true else none)
wait_until ends (none ∷ ds) c = (c, some (ends c))
wait_until ends (some es ∷ ds) c =
    let rest = wait_until ends ds (run step c es) in if ends c then (c, some true) else rest

abbrev pub held : (ℕ → Call) → Option ℕ → List Call
held destroy none = []
held destroy (some r) = destroy r ∷ []

-- The memory file could be made, and has its size.
abbrev pub has_memory : Memory → Bool
has_memory m = not (is_null m.fd) && m.truncated

abbrev pub opens : Memory → Running → Running
opens m p = record p { memory_fd = m.fd }

abbrev pub makes_params : Memory → Running → Running
makes_params m p = record p {
  memory_fd = m.fd;
  params = m.params;
  done = p.done ++ (create_params m.params ∷ []);
}

-- A plane is added, and its descriptor closed.
abbrev pub adds : Memory → Running → Running
adds m p = record p {
  memory_fd = none;
  done =
      p.done
      ++ (add m.params m.fd 0 0 4 drm_format_mod_invalid_hi drm_format_mod_invalid_lo
          ∷ held close m.fd);
}

-- What follows a loop, only after it ended without an error.
abbrev pub and_after : Option Bool → Running → Running → Running
and_after none waited next = record waited { status = none }
and_after (some false) waited next = record waited { status = some false }
and_after (some true) waited next = next

abbrev pub is_async : DmabufClient → Bool
is_async c = not (is_null c.async_buffer)

abbrev pub is_failed : DmabufClient → Bool
is_failed c = c.create_failed

abbrev pub destroys_params : Running → Running
destroys_params p = record p { params = none; done = p.done ++ held params_destroy p.params }

-- The third round: no buffer can be made.
unfoldable pub fail_create : World → Running → Running
fail_create w p =
    let q = makes_params w.failure p in
    let added = adds w.failure q in
    let asked = record added {
      done = added.done ++ (create w.failure.params 2 1 drm_format_argb8888 0 ∷ []);
    } in
    let (c, ended) = wait_until is_failed w.until_failed asked.state in
    let waited = record asked { state = c } in
    let gone = dispatch w.sixth.0 (destroys_params waited) in
    if not (has_memory w.failure)
    then opens w.failure p
    else if is_null w.failure.params
    then q
    else and_after ended waited (record gone { status = some w.sixth.1 })

-- The asynchronous buffer is destroyed and forgotten.
abbrev pub destroys_async : Running → Running
destroys_async p = record p {
  state = record p.state { async_buffer = none };
  done = p.done ++ held buffer_destroy p.state.async_buffer;
}

-- The second round: a buffer is made asynchronously.
unfoldable pub create_async : World → Running → Running
create_async w p =
    let q = makes_params w.async p in
    let added = adds w.async q in
    let asked = record added {
      done = added.done ++ (create w.async.params 1 1 drm_format_argb8888 0 ∷ []);
    } in
    let (c, ended) = wait_until is_async w.until_created asked.state in
    let waited = record asked { state = c } in
    let gone = dispatch w.fifth.0 (destroys_params (destroys_async waited)) in
    if not (has_memory w.async)
    then opens w.async p
    else if is_null w.async.params
    then q
    else and_after ended waited (if not w.fifth.1 then gone else fail_create w gone)

abbrev pub destroys_buffer : Running → Running
destroys_buffer p = record p { buffer = none; done = p.done ++ held buffer_destroy p.buffer }

-- The first round: a buffer is made at once.
unfoldable pub create_now : World → Running → Running
create_now w p =
    let q = makes_params w.immediate p in
    let added = adds w.immediate q in
    let asked = record added {
      buffer = w.buffer;
      done =
          added.done ++ (create_immed w.immediate.params 1 1 drm_format_argb8888 0 w.buffer ∷ []);
    } in
    let shown = dispatch w.third.0 asked in
    let gone = dispatch w.fourth.0 (destroys_params (destroys_buffer shown)) in
    if not (has_memory w.immediate)
    then opens w.immediate p
    else if is_null w.immediate.params
    then q
    else if is_null w.buffer
    then asked
    else if not w.third.1
    then shown
    else if not w.fourth.1
    then gone
    else create_async w gone

abbrev pub started : Running
started = record {
  state = init;
  memory_fd = none;
  params = none;
  buffer = none;
  done = [];
  status = some false;
}

-- The run up to the label `cleanup`.
unfoldable pub before_cleanup : World → Running
before_cleanup w =
    let p = dispatch w.first.0 started in
    let q = dispatch w.second.0 p in
    if not w.first.1 || is_null p.state.dmabuf
    then p
    else if not w.second.1 || not q.state.modifier_seen
    then q
    else create_now w q

-- The label `cleanup`.
unfoldable pub cleanup : Running → List Call
cleanup p =
    held close p.memory_fd
    ++ (held buffer_destroy p.buffer
        ++ (held buffer_destroy p.state.async_buffer
            ++ (held params_destroy p.params
                ++ (held dmabuf_destroy p.state.dmabuf
                    ++ (registry_destroy ∷ flush ∷ disconnect ∷ [])))))

abbrev pub is_waiting : Option Bool → Bool
is_waiting none = true
is_waiting (some b) = false

-- The status, EXIT_SUCCESS being true, none while it waits, and the calls.
unfoldable pub dmabuf_client_fd : World → Option Bool × List Call
dmabuf_client_fd w =
    let p = before_cleanup w in
    let calls = if is_waiting p.status then p.done else p.done ++ cleanup p in
    if w.connected then (p.status, calls) else (some false, [])

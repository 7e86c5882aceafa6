-- ===== src/DmabufClient/Session.antt =====
-- src/bench/dmabuf-interop-client.c and src/bench/dmabuf-interop-server.c: a run of both.
use wayring.Base.{
  if◌then◌else◌, ℕ, ◌≡◌, refl, sym, ap, ◌∙◌, Bool, true, false, not, Option, none, some, List, [],
  ◌∷◌, ◌++◌, arith,
}
use wayring.Bench.{is_null}
use wayring.Bench.History.{run}
use wayring.Bench.Routes.{requests}
use wayring.DmabufServer as Server
use wayring.DmabufServer.{
  Request, destroys_buffer, destroys_params, destroys_dmabuf, adds, creates, creates_immed,
  creates_params,
}
use wayring.DmabufClient.{
  Call, create_params, add, create_immed, create, close, buffer_destroy, params_destroy,
  dmabuf_destroy, registry_destroy, flush, disconnect,
}
use wayring.DmabufClient.Main.{
  World, Memory, has_memory, Running, before_cleanup, cleanup, is_waiting, dmabuf_client_fd,
}
use wayring.DmabufClient.Stages.{greeted, after_now, async_state, ended, before_end}

abbrev on : (ℕ → Request) → Option ℕ → List Request
on request none = []
on request (some r) = request r ∷ []

-- The requests that reach the server's handlers by a call. The object's id stands for its resource,
-- `buffer` is the resource that the server makes for a `create`, and the descriptors that it has are
-- closed on exec.
unfoldable pub routed : ℕ → Call → List Request
routed buffer (create_params made) = creates_params made ∷ []
routed buffer (add params fd index offset stride hi lo) =
    on (λ n. adds n (some 1) index offset stride hi lo) fd
routed buffer (create_immed params width height format flags made) =
    creates_immed width height format flags made ∷ []
routed buffer (create params width height format flags) =
    on (λ r. creates r width height format flags (some buffer)) params
routed buffer (close fd) = []
routed buffer (buffer_destroy r) = destroys_buffer r ∷ []
routed buffer (params_destroy r) = destroys_params r ∷ []
routed buffer (dmabuf_destroy r) = destroys_dmabuf r ∷ []
routed buffer registry_destroy = []
routed buffer flush = []
routed buffer disconnect = Server.leaves ∷ []

some_of : (o : Option ℕ) → is_null o ≡ false → (r : ℕ) × (o ≡ some r)
some_of none e = absurd (cc)
some_of (some r) e = (r, refl)

-- The client where its run ends, if it succeeds.
abbrev last : World → Running
last w = ended w (greeted w)

-- What the client returns, and its calls.
abbrev answer : Bool → Running → Option Bool × List Call
answer connected p =
    if connected
    then (p.status, if is_waiting p.status then p.done else p.done ++ cleanup p)
    else (some false, [])

unnot : (b : Bool) → not b ≡ true → b ≡ false
unnot true e = sym e
unnot false e = refl

answered :
    (connected : Bool) (p : Running)
    → (answer connected p).0 ≡ some true
    → (p.status ≡ some true) × ((answer connected p).1 ≡ p.done ++ cleanup p)
answered false p s = absurd (cc)
answered true p s = (s, ap (λ t. if is_waiting t then p.done else p.done ++ cleanup p) s)

memory_fd : (m : Memory) → has_memory m ≡ true → is_null m.fd ≡ false
memory_fd m h = ground arith

server_ends :
    (buffer : ℕ) (w : World) (f p b f' p' a f'' p'' d : ℕ)
    → w.immediate.fd ≡ some f
    → w.immediate.params ≡ some p
    → w.buffer ≡ some b
    → w.async.fd ≡ some f'
    → w.async.params ≡ some p'
    → (async_state w (after_now w (greeted w)).state).async_buffer ≡ some a
    → w.failure.fd ≡ some f''
    → w.failure.params ≡ some p''
    → (last w).state.async_buffer ≡ none
    → (last w).state.dmabuf ≡ some d
    → Server.succeeded
        (run Server.step Server.init (requests (routed buffer) ((last w).done ++ cleanup (last w))))
      ≡ true
unfolding cleanup requests routed run Server.step Server.succeeded
server_ends buffer w f p b f' p' a f'' p'' d e1 e2 e3 e4 e5 e6 e7 e8 e9 e10 =
    rw (e1, e2, e3, e4, e5, e6, e7, e8, e9, e10) refl

-- If a run of the dmabuf client succeeds, and at its end it has the dmabuf global and no further buffer,
-- the server succeeds by its calls, whatever resource it makes for a buffer.
pub dmabuf_both_succeed :
    (buffer : ℕ) (w : World)
    → (dmabuf_client_fd w).0 ≡ some true
    → (before_cleanup w).state.async_buffer ≡ none
    → is_null (before_cleanup w).state.dmabuf ≡ false
    → Server.succeeded
        (run Server.step Server.init (requests (routed buffer) (dmabuf_client_fd w).1))
      ≡ true
unfolding dmabuf_client_fd
dmabuf_both_succeed buffer w s none_left has_dmabuf =
    let (status, called) = answered w.connected (before_cleanup w) s in
    let (made, e) = before_end w status in
    let (f, e1) = some_of w.immediate.fd (memory_fd w.immediate made.immediate.0) in
    let (p, e2) = some_of w.immediate.params made.immediate.1 in
    let (b, e3) = some_of w.buffer made.buffer in
    let (f', e4) = some_of w.async.fd (memory_fd w.async made.async.0) in
    let (p', e5) = some_of w.async.params made.async.1 in
    let (a, e6) =
      some_of (async_state w (after_now w (greeted w)).state).async_buffer
        (unnot _ made.async_buffer) in
    let (f'', e7) = some_of w.failure.fd (memory_fd w.failure made.failure.0) in
    let (p'', e8) = some_of w.failure.params made.failure.1 in
    let e9 = ap (λ (r : Running). r.state.async_buffer) (sym e) ∙ none_left in
    let (d, e10) =
      some_of (last w).state.dmabuf
        (ap (λ (r : Running). is_null r.state.dmabuf) (sym e) ∙ has_dmabuf) in
    ap (λ cs. Server.succeeded (run Server.step Server.init (requests (routed buffer) cs)))
      (called ∙ ap (λ (r : Running). r.done ++ cleanup r) e)
    ∙ server_ends buffer w f p b f' p' a f'' p'' d e1 e2 e3 e4 e5 e6 e7 e8 e9 e10

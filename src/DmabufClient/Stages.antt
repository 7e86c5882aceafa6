-- ===== src/DmabufClient/Stages.antt =====
-- src/bench/dmabuf-interop-client.c: the rounds of a run of the client that succeeds.
use wayring.Base.{
  if◌then◌else◌, ℕ, ◌≡◌, refl, sym, ap, ◌∙◌, Bool, true, false, not, ◌||◌, Option, none, some, [],
  ◌∷◌, ◌++◌,
}
use wayring.Bench.{is_null}
use wayring.Bench.Branches.{past_stop}
use wayring.Bench.History.{run}
use wayring.DmabufServer.{drm_format_argb8888}
use wayring.DmabufClient.{DmabufClient, create_immed, create, step}
use wayring.DmabufClient.Main.{
  World, Running, Dispatches, Memory, dispatch, wait_until, has_memory, opens, makes_params, adds,
  and_after, is_async, is_failed, destroys_params, destroys_async, destroys_buffer, fail_create,
  create_async, create_now, started, before_cleanup,
}

ends_now : (b : Bool) → (if b then some true else none) ≡ some true → b ≡ true
ends_now true s = refl
ends_now false s = absurd (cc)

ends_later :
    (ends : DmabufClient → Bool) (c : DmabufClient) (r : DmabufClient × Option Bool) (b : Bool)
    → ends c ≡ b
    → (r.1 ≡ some true → ends r.0 ≡ true)
    → (if b then (c, some true) else r).1 ≡ some true
    → ends (if b then (c, some true) else r).0 ≡ true
ends_later ends c r true e later s = e
ends_later ends c r false e later s = later s

-- A loop that ends without an error ends where its condition does.
wait-ends :
    (ends : DmabufClient → Bool) (ds : Dispatches) (c : DmabufClient)
    → (wait_until ends ds c).1 ≡ some true
    → ends (wait_until ends ds c).0 ≡ true
unfolding wait_until
wait-ends ends [] c s = ends_now (ends c) s
wait-ends ends (none ∷ ds) c s = cc
wait-ends ends (some es ∷ ds) c s =
    ends_later ends c (wait_until ends ds (run step c es)) (ends c) refl
      (wait-ends ends ds (run step c es)) s

past_wait :
    (ended : Option Bool) (waited next : Running)
    → (and_after ended waited next).status ≡ some true
    → (ended ≡ some true) × (and_after ended waited next ≡ next)
past_wait none waited next s = absurd (cc)
past_wait (some false) waited next s = absurd (cc)
past_wait (some true) waited next s = (refl, refl)

abbrev status : Running → Option Bool
status r = r.status

-- The memory file, the params and the plane of a round.
abbrev pub prepared : Memory → Running → Running
prepared m p = adds m (makes_params m p)

-- The request for a buffer, one or two pixels wide.
abbrev pub asked : Memory → ℕ → Running → Running
asked m width p =
    let q = prepared m p in
    record q { done = q.done ++ (create m.params width 1 drm_format_argb8888 0 ∷ []) }

abbrev pub IsPrepared : Memory → Type 0
IsPrepared m = (has_memory m ≡ true) × (is_null m.params ≡ false)

abbrev pub failed_state : World → DmabufClient → DmabufClient
failed_state w c = (wait_until is_failed w.until_failed c).0

-- Where the third round ends.
abbrev pub after_fail : World → Running → Running
after_fail w p =
    let waited = record (asked w.failure 2 p) { state = failed_state w p.state } in
    record (dispatch w.sixth.0 (destroys_params waited)) { status = some w.sixth.1 }

unnot : (b : Bool) → not b ≡ false → b ≡ true
unnot true e = refl
unnot false e = absurd (cc)

fail_end :
    (w : World) (p : Running)
    → p.status ≡ some false
    → (fail_create w p).status ≡ some true
    → IsPrepared w.failure × (fail_create w p ≡ after_fail w p)
unfolding fail_create
fail_end w p f s =
    let ended = (wait_until is_failed w.until_failed p.state).1 in
    let waited = record (asked w.failure 2 p) { state = failed_state w p.state } in
    let rest = and_after ended waited (after_fail w p) in
    let q = makes_params w.failure p in
    let (m, e) =
      past_stop status (not (has_memory w.failure)) (opens w.failure p)
        (if is_null w.failure.params then q else rest) f s in
    let s' = sym (ap status e) ∙ s in
    let (n, e') = past_stop status (is_null w.failure.params) q rest f s' in
    let (g, e'') = past_wait ended waited (after_fail w p) (sym (ap status e') ∙ s') in
    ((unnot (has_memory w.failure) m, n), e ∙ e' ∙ e'')

abbrev pub async_state : World → DmabufClient → DmabufClient
async_state w c = (wait_until is_async w.until_created c).0

-- Where the second round ends.
abbrev pub after_async : World → Running → Running
after_async w p =
    let waited = record (asked w.async 1 p) { state = async_state w p.state } in
    dispatch w.fifth.0 (destroys_params (destroys_async waited))

async_end :
    (w : World) (p : Running)
    → p.status ≡ some false
    → (create_async w p).status ≡ some true
    → (IsPrepared w.async × (is_async (async_state w p.state) ≡ true))
      × (IsPrepared w.failure × (create_async w p ≡ after_fail w (after_async w p)))
unfolding create_async
async_end w p f s =
    let ended = (wait_until is_async w.until_created p.state).1 in
    let waited = record (asked w.async 1 p) { state = async_state w p.state } in
    let gone = after_async w p in
    let next = if not w.fifth.1 then gone else fail_create w gone in
    let rest = and_after ended waited next in
    let q = makes_params w.async p in
    let (m, e) =
      past_stop status (not (has_memory w.async)) (opens w.async p)
        (if is_null w.async.params then q else rest) f s in
    let s' = sym (ap status e) ∙ s in
    let (n, e') = past_stop status (is_null w.async.params) q rest f s' in
    let s'' = sym (ap status e') ∙ s' in
    let (g, h) = past_wait ended waited next s'' in
    let t = sym (ap status h) ∙ s'' in
    let (o, h') = past_stop status (not w.fifth.1) gone (fail_create w gone) f t in
    let (made, k) = fail_end w gone f (sym (ap status h') ∙ t) in
    (
      ((unnot (has_memory w.async) m, n), wait-ends is_async w.until_created p.state g),
      (made, e ∙ e' ∙ h ∙ h' ∙ k),
    )

-- Where the first round ends.
abbrev pub after_now : World → Running → Running
after_now w p =
    let q = prepared w.immediate p in
    let asked = record q {
      buffer = w.buffer;
      done = q.done ++ (create_immed w.immediate.params 1 1 drm_format_argb8888 0 w.buffer ∷ []);
    } in
    dispatch w.fourth.0 (destroys_params (destroys_buffer (dispatch w.third.0 asked)))

-- Where a run ends, and what its calls have returned then.
abbrev pub ended : World → Running → Running
ended w p = after_fail w (after_async w (after_now w p))

pub record IsMade (w : World) (c : DmabufClient) : Type 0 where
  pub immediate : IsPrepared w.immediate
  pub buffer : is_null w.buffer ≡ false
  pub async : IsPrepared w.async
  pub async_buffer : is_async (async_state w c) ≡ true
  pub failure : IsPrepared w.failure

now_end :
    (w : World) (p : Running)
    → p.status ≡ some false
    → (create_now w p).status ≡ some true
    → IsMade w (after_now w p).state × (create_now w p ≡ ended w p)
unfolding create_now
now_end w p f s =
    let q = makes_params w.immediate p in
    let added = adds w.immediate q in
    let asked = record added {
      buffer = w.buffer;
      done =
          added.done ++ (create_immed w.immediate.params 1 1 drm_format_argb8888 0 w.buffer ∷ []);
    } in
    let shown = dispatch w.third.0 asked in
    let gone = after_now w p in
    let last = if not w.fourth.1 then gone else create_async w gone in
    let fourth = if not w.third.1 then shown else last in
    let third = if is_null w.buffer then asked else fourth in
    let second = if is_null w.immediate.params then q else third in
    let (m, e) = past_stop status (not (has_memory w.immediate)) (opens w.immediate p) second f s in
    let t = sym (ap status e) ∙ s in
    let (n, e') = past_stop status (is_null w.immediate.params) q third f t in
    let t' = sym (ap status e') ∙ t in
    let (b, e'') = past_stop status (is_null w.buffer) asked fourth f t' in
    let u = sym (ap status e'') ∙ t' in
    let (o, g) = past_stop status (not w.third.1) shown last f u in
    let u' = sym (ap status g) ∙ u in
    let (o', g') = past_stop status (not w.fourth.1) gone (create_async w gone) f u' in
    let ((made, async), (failure, k)) = async_end w gone f (sym (ap status g') ∙ u') in
    (
      record {
        immediate = (unnot (has_memory w.immediate) m, n);
        buffer = b;
        async = made;
        async_buffer = async;
        failure = failure;
      },
      e ∙ e' ∙ e'' ∙ g ∙ g' ∙ k,
    )

-- The client once the modifier is seen.
abbrev pub greeted : World → Running
greeted w = dispatch w.second.0 (dispatch w.first.0 started)

pub before_end :
    (w : World)
    → (before_cleanup w).status ≡ some true
    → IsMade w (after_now w (greeted w)).state × (before_cleanup w ≡ ended w (greeted w))
unfolding before_cleanup
before_end w s =
    let p = dispatch w.first.0 started in
    let q = greeted w in
    let rest = if not w.second.1 || not q.state.modifier_seen then q else create_now w q in
    let (a, e) = past_stop status (not w.first.1 || is_null p.state.dmabuf) p rest refl s in
    let t = sym (ap status e) ∙ s in
    let (b, e') =
      past_stop status (not w.second.1 || not q.state.modifier_seen) q (create_now w q) refl t in
    let (made, k) = now_end w q refl (sym (ap status e') ∙ t) in (made, e ∙ e' ∙ k)

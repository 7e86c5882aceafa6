-- ===== src/XdgClient/Main.antt =====
-- src/bench/xdg-interop-client.c: `xdg_client_fd`.
use wayring.Base.{
  if◌then◌else◌, ℕ, Bool, true, false, not, ◌&&◌, ◌||◌, Option, none, some, List, [], ◌∷◌, ◌++◌,
}
use wayring.Bench.{is_null}
use wayring.Bench.History.{run, calls}
use wayring.XdgClient.{
  XdgClient, Call, create_surface, get_xdg_surface, get_toplevel, ask_feedback, commit,
  toplevel_destroy, xdg_surface_destroy, surface_destroy, wm_base_destroy, presentation_destroy,
  compositor_destroy, registry_destroy, flush, disconnect, Event, step, init,
}

-- What a wl_display_roundtrip dispatches, and whether it succeeds.
abbrev pub Roundtrip : Type 0
Roundtrip = List Event × Bool

-- What the calls of a loop on wl_display_dispatch bring; `none` where one fails.
abbrev pub Dispatches : Type 0
Dispatches = List (Option (List Event))

-- What the calls of `xdg_client_fd` return.
pub record World : Type 0 where
  pub connected : Bool
  pub first : Roundtrip
  pub second : Roundtrip
  pub surface : Option ℕ
  pub xdg_surface : Option ℕ
  pub toplevel : Option ℕ
  pub presented_feedback : Option ℕ
  pub until_presented : Dispatches
  pub discarded_feedback : Option ℕ
  pub until_discarded : Dispatches
  pub last : Roundtrip

-- The client in the middle of its run: what it made, and what it did. Its status is `none` while it waits
-- for a dispatch.
pub record Running : Type 0 where
  pub state : XdgClient
  pub made_surface : Option ℕ
  pub made_xdg_surface : Option ℕ
  pub made_toplevel : Option ℕ
  pub done : List Call
  pub status : Option Bool

-- The events of a dispatch, in order.
abbrev pub dispatch : List Event → Running → Running
dispatch es p = record p { state = run step p.state es; done = p.done ++ calls step p.state es }

abbrev pub does : List Call → Running → Running
does calls p = record p { done = p.done ++ calls }

-- A loop on wl_display_dispatch: its status is whether it ended without an error.
unfoldable pub wait_until : (XdgClient → Bool) → Dispatches → Running → Running
wait_until ends [] p = record p { status = if ends p.state then some true else none }
wait_until ends (none ∷ ds) p = record p { status = some (ends p.state) }
wait_until ends (some es ∷ ds) p =
    let rest = wait_until ends ds (dispatch es p) in
    if ends p.state then record p { status = some true } else rest

abbrev pub held : (ℕ → Call) → Option ℕ → List Call
held destroy none = []
held destroy (some r) = destroy r ∷ []

-- The labels `cleanup_toplevel` and `cleanup_registry`; behind the first, nothing is made where only the
-- second is reached.
unfoldable pub cleanup : Running → List Call
cleanup p =
    held toplevel_destroy p.made_toplevel
    ++ (held xdg_surface_destroy p.made_xdg_surface
        ++ (held surface_destroy p.made_surface
            ++ (held wm_base_destroy p.state.wm_base
                ++ (held presentation_destroy p.state.presentation
                    ++ (held compositor_destroy p.state.compositor
                        ++ (registry_destroy ∷ flush ∷ disconnect ∷ []))))))

abbrev pub fails : Running → Running
fails p = record p { status = some false }

-- What follows a loop, only after it ended without an error.
abbrev pub and_after : Option Bool → Running → Running → Running
and_after none waiting next = waiting
and_after (some false) waiting next = waiting
and_after (some true) waiting next = next

abbrev pub both_seen : XdgClient → Bool
both_seen c = c.configured && c.presented

abbrev pub is_discarded : XdgClient → Bool
is_discarded c = c.discarded

abbrev pub last_roundtrip : World → Running → Running
last_roundtrip w p = record (dispatch w.last.0 p) { status = some w.last.1 }

-- The second feedback, and what follows it.
unfoldable pub until_discarded : World → Running → Running
until_discarded w p =
    let asked = does (ask_feedback w.discarded_feedback ∷ []) p in
    let waited = wait_until is_discarded w.until_discarded (does (commit ∷ []) asked) in
    if is_null w.discarded_feedback
    then fails asked
    else and_after waited.status waited (last_roundtrip w waited)

-- The first feedback, and what follows it.
unfoldable pub until_presented : World → Running → Running
until_presented w p =
    let asked = does (ask_feedback w.presented_feedback ∷ []) p in
    let waited = wait_until both_seen w.until_presented (does (commit ∷ []) asked) in
    if is_null w.presented_feedback
    then fails asked
    else and_after waited.status waited (until_discarded w waited)

-- The surface and its toplevel, and what follows them.
unfoldable pub make_toplevel : World → Running → Running
make_toplevel w p =
    let surfaces =
      does (create_surface w.surface ∷ get_xdg_surface w.xdg_surface ∷ [])
        (record p { made_surface = w.surface; made_xdg_surface = w.xdg_surface }) in
    let toplevel =
      does (get_toplevel w.xdg_surface w.toplevel ∷ [])
        (record surfaces { made_toplevel = w.toplevel }) in
    if is_null w.surface || is_null w.xdg_surface
    then fails surfaces
    else if is_null w.toplevel
    then fails toplevel
    else until_presented w toplevel

abbrev pub started : Running
started = record {
  state = init;
  made_surface = none;
  made_xdg_surface = none;
  made_toplevel = none;
  done = [];
  status = some false;
}

abbrev pub has_globals : XdgClient → Bool
has_globals c =
    not (is_null c.compositor) && (not (is_null c.wm_base) && not (is_null c.presentation))

-- The run up to the first label.
unfoldable pub before_cleanup : World → Running
before_cleanup w =
    let p = dispatch w.first.0 started in
    let q = dispatch w.second.0 p in
    if not w.first.1 || not (has_globals p.state)
    then p
    else if not w.second.1 || not (q.state.pinged && q.state.clock_seen)
    then q
    else make_toplevel w q

abbrev pub is_waiting : Option Bool → Bool
is_waiting none = true
is_waiting (some b) = false

-- The status, EXIT_SUCCESS being true, none while it waits, and the calls.
unfoldable pub xdg_client_fd : World → Option Bool × List Call
xdg_client_fd w =
    let p = before_cleanup w in
    let calls = if is_waiting p.status then p.done else p.done ++ cleanup p in
    if w.connected then (p.status, calls) else (some false, [])

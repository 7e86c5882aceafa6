-- ===== src/XdgClient/Routed.antt =====
-- src/bench/xdg-interop-client.c and src/bench/xdg-interop-server.c: what the client's calls are to the
-- server, and what the server notes of them.
use wayring.Base.{
  ◌==◌, if◌then◌else◌, All, ℕ, ◌≡◌, refl, sym, ap, subst, ◌∙◌, Bool, true, false, none, some, List,
  [], ◌∷◌, ◌++◌, append_assoc,
}
use wayring.Bench.{is_null}
use wayring.Bench.Texts.{streq}
use wayring.Bench.History
use wayring.XdgServer as Server
use wayring.XdgServer.{
  XdgServer, Request, asks_feedback, destroys_presentation, commits, destroys_surface,
  creates_surface, destroys_toplevel, gets_toplevel, acks_configure, destroys_xdg_surface,
  gets_xdg_surface, pongs, destroys_wm_base, leaves,
}
use wayring.XdgClient.{
  XdgClient, Call, create_surface, get_xdg_surface, get_toplevel, ask_feedback, commit, pong,
  ack_configure, toplevel_destroy, xdg_surface_destroy, surface_destroy, wm_base_destroy,
  presentation_destroy, compositor_destroy, registry_destroy, flush, disconnect, Event, clock,
  syncs_output, presents, discards, pings, global, global_remove, configures, configures_toplevel,
  closes, sets_bounds, tells_capabilities, is_first, step,
}

-- The requests that reach the server's handlers by a call. The object's id stands for its resource, and
-- wl_compositor has no request to destroy it.
unfoldable pub routed : Call → List Request
routed (create_surface made) = creates_surface made ∷ []
routed (get_xdg_surface made) = gets_xdg_surface made ∷ []
routed (get_toplevel none made) = []
routed (get_toplevel (some xdg_surface) made) = gets_toplevel xdg_surface made ∷ []
routed (ask_feedback made) = asks_feedback made ∷ []
routed commit = commits ∷ []
routed (pong serial) = pongs serial ∷ []
routed (ack_configure serial) = acks_configure serial ∷ []
routed (toplevel_destroy r) = destroys_toplevel r ∷ []
routed (xdg_surface_destroy r) = destroys_xdg_surface r ∷ []
routed (surface_destroy r) = destroys_surface r ∷ []
routed (wm_base_destroy r) = destroys_wm_base r ∷ []
routed (presentation_destroy r) = destroys_presentation r ∷ []
routed (compositor_destroy r) = []
routed registry_destroy = []
routed flush = []
routed disconnect = leaves ∷ []

unfoldable pub requests : List Call → List Request
requests [] = []
requests (c ∷ cs) = routed c ++ requests cs

requests-append : (cs ds : List Call) → requests (cs ++ ds) ≡ requests cs ++ requests ds
unfolding requests
requests-append [] ds = refl
requests-append (c ∷ cs) ds =
    ap (λ rs. routed c ++ rs) (requests-append cs ds)
    ∙ sym (append_assoc (routed c) (requests cs) (requests ds))

-- The server behind these calls.
unfoldable pub behind : XdgServer → List Call → XdgServer
behind s cs = History.run Server.step s (requests cs)

pub behind-append :
    (s : XdgServer) (cs ds : List Call) → behind s (cs ++ ds) ≡ behind (behind s cs) ds
unfolding behind
behind-append s cs ds =
    ap (History.run Server.step s) (requests-append cs ds)
    ∙ History.run-append Server.step s (requests cs) (requests ds)

-- The events of this server: it pings with 41, configures with 77, and its globals can be bound.
unfoldable pub IsServed : Event → Type 0
IsServed (pings serial) = serial ≡ 41
IsServed (configures serial) = serial ≡ 77
IsServed (global interface bound) = is_null bound ≡ false
IsServed _ = Unit

-- The server has noted what the client has, and `n` feedbacks.
pub record Follows (n : ℕ) (c : XdgClient) (s : XdgServer) : Type 0 where
  pub ponged : s.ponged ≡ c.pinged
  pub acked : s.configured ≡ c.configured
  pub counted : s.feedback_count ≡ n

-- What both branches of a test have.
pub either :
    (P : XdgClient → Type 0) {c d : XdgClient} (b : Bool) → P d → P c → P (if b then d else c)
either P true p q = p
either P false p q = q

step-Follows :
    (n : ℕ) (e : Event) (c : XdgClient) (s : XdgServer)
    → IsServed e
    → Follows n c s
    → Follows n (step e c).0 (behind s (step e c).1)
unfolding IsServed step behind requests routed Server.step History.run
step-Follows n (pings serial) c s served f =
    subst (λ k. Follows n (step (pings k) c).0 (behind s (step (pings k) c).1)) (sym served)
      record { ponged = refl; acked = f.acked; counted = f.counted }
step-Follows n (configures serial) c s served f =
    subst (λ k. Follows n (step (configures k) c).0 (behind s (step (configures k) c).1))
      (sym served) record { ponged = f.ponged; acked = refl; counted = f.counted }
step-Follows n (global interface bound) c s served f =
    either (λ d. Follows n d s) (streq interface "wl_compositor")
      record { ponged = f.ponged; acked = f.acked; counted = f.counted }
      (either (λ d. Follows n d s) (streq interface "xdg_wm_base")
        record { ponged = f.ponged; acked = f.acked; counted = f.counted }
        (either (λ d. Follows n d s) (streq interface "wp_presentation")
          record { ponged = f.ponged; acked = f.acked; counted = f.counted } f))
step-Follows n (clock m) c s served f =
    either (λ d. Follows n d s) (m == 1)
      record { ponged = f.ponged; acked = f.acked; counted = f.counted } f
step-Follows n syncs_output c s served f = f
step-Follows n (presents hi lo nsec refresh seq_hi seq_lo flags) c s served f =
    either (λ d. Follows n d s) (is_first hi lo nsec refresh seq_hi seq_lo flags)
      record { ponged = f.ponged; acked = f.acked; counted = f.counted } f
step-Follows n discards c s served f = record {
  ponged = f.ponged;
  acked = f.acked;
  counted = f.counted;
}
step-Follows n global_remove c s served f = f
step-Follows n configures_toplevel c s served f = f
step-Follows n closes c s served f = f
step-Follows n sets_bounds c s served f = f
step-Follows n tells_capabilities c s served f = f

pub run-Follows :
    (n : ℕ) (es : List Event) (c : XdgClient) (s : XdgServer)
    → All IsServed es
    → Follows n c s
    → Follows n (History.run step c es) (behind s (History.calls step c es))
unfolding History.run History.calls behind requests
run-Follows n [] c s a f = f
run-Follows n (e ∷ es) c s (served, a) f =
    subst (Follows n (History.run step (step e c).0 es))
      (sym (behind-append s (step e c).1 (History.calls step (step e c).0 es)))
      (run-Follows n es (step e c).0 (behind s (step e c).1) a (step-Follows n e c s served f))

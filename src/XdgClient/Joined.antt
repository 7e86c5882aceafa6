-- ===== src/XdgClient/Joined.antt =====
-- src/bench/xdg-interop-client.c: what the client keeps over the events of the server.
use wayring.Base.{◌==◌, All, ℕ, ◌≡◌, refl, true, false, Option, List, [], ◌∷◌}
use wayring.Bench.{is_null}
use wayring.Bench.Texts.{streq}
use wayring.Bench.History
use wayring.XdgClient.{
  XdgClient, Event, clock, syncs_output, presents, discards, pings, global, global_remove,
  configures, configures_toplevel, closes, sets_bounds, tells_capabilities, is_first, step,
}
use wayring.XdgClient.Routed.{IsServed, either}

-- What no event of the server takes from the client.
pub record IsKept (P : XdgClient → Type 0) : Type 0 where
  pub pinged : (c : XdgClient) → P c → P (record c { pinged = true })
  pub configured : (c : XdgClient) → P c → P (record c { configured = true })
  pub clock_seen : (c : XdgClient) → P c → P (record c { clock_seen = true })
  pub presented : (c : XdgClient) → P c → P (record c { presented = true })
  pub discarded : (c : XdgClient) → P c → P (record c { discarded = true })
  pub compositor : (c : XdgClient) (b : Option ℕ) → P c → P (record c { compositor = b })
  pub wm_base :
      (c : XdgClient) (b : Option ℕ) → is_null b ≡ false → P c → P (record c { wm_base = b })
  pub presentation :
      (c : XdgClient) (b : Option ℕ) → is_null b ≡ false → P c → P (record c { presentation = b })

module _ (P : XdgClient → Type 0) (k : IsKept P) where
  step_kept : (e : Event) (c : XdgClient) → IsServed e → P c → P (step e c).0
  unfolding IsServed step
  step_kept (pings serial) c served p = k.pinged c p
  step_kept (configures serial) c served p = k.configured c p
  step_kept (global interface bound) c served p =
      either P (streq interface "wl_compositor") (k.compositor c bound p) (
        either P (streq interface "xdg_wm_base") (k.wm_base c bound served p)
          (either P (streq interface "wp_presentation") (k.presentation c bound served p) p))
  step_kept (clock m) c served p = either P (m == 1) (k.clock_seen c p) p
  step_kept syncs_output c served p = p
  step_kept (presents hi lo nsec refresh seq_hi seq_lo flags) c served p =
      either P (is_first hi lo nsec refresh seq_hi seq_lo flags) (k.presented c p) p
  step_kept discards c served p = k.discarded c p
  step_kept global_remove c served p = p
  step_kept configures_toplevel c served p = p
  step_kept closes c served p = p
  step_kept sets_bounds c served p = p
  step_kept tells_capabilities c served p = p

  pub run_kept :
      (es : List Event) (c : XdgClient) → All IsServed es → P c → P (History.run step c es)
  unfolding History.run
  run_kept [] c a p = p
  run_kept (e ∷ es) c (served, a) p = run_kept es (step e c).0 a (step_kept e c served p)

-- The client has what it destroys of the globals.
pub record IsJoined (c : XdgClient) : Type 0 where
  pub wm_base : is_null c.wm_base ≡ false
  pub presentation : is_null c.presentation ≡ false

pub run-IsJoined :
    (es : List Event) (c : XdgClient)
    → All IsServed es
    → IsJoined c
    → IsJoined (History.run step c es)
run-IsJoined = run_kept IsJoined (record {
  pinged = λ c j. record { wm_base = j.wm_base; presentation = j.presentation };
  configured = λ c j. record { wm_base = j.wm_base; presentation = j.presentation };
  clock_seen = λ c j. record { wm_base = j.wm_base; presentation = j.presentation };
  presented = λ c j. record { wm_base = j.wm_base; presentation = j.presentation };
  discarded = λ c j. record { wm_base = j.wm_base; presentation = j.presentation };
  compositor = λ c b j. record { wm_base = j.wm_base; presentation = j.presentation };
  wm_base = λ c b e j. record { wm_base = e; presentation = j.presentation };
  presentation = λ c b e j. record { wm_base = j.wm_base; presentation = e };
})

pub run-pinged :
    (es : List Event) (c : XdgClient)
    → All IsServed es
    → c.pinged ≡ true
    → (History.run step c es).pinged ≡ true
run-pinged =
    run_kept (λ c. c.pinged ≡ true)
      (record {
        pinged = λ c e. refl;
        configured = λ c e. e;
        clock_seen = λ c e. e;
        presented = λ c e. e;
        discarded = λ c e. e;
        compositor = λ c b e. e;
        wm_base = λ c b n e. e;
        presentation = λ c b n e. e;
      })

pub run-configured :
    (es : List Event) (c : XdgClient)
    → All IsServed es
    → c.configured ≡ true
    → (History.run step c es).configured ≡ true
run-configured =
    run_kept (λ c. c.configured ≡ true)
      (record {
        pinged = λ c e. e;
        configured = λ c e. refl;
        clock_seen = λ c e. e;
        presented = λ c e. e;
        discarded = λ c e. e;
        compositor = λ c b e. e;
        wm_base = λ c b n e. e;
        presentation = λ c b n e. e;
      })

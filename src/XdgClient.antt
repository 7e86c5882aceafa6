-- ===== src/XdgClient.antt =====
-- src/bench/xdg-interop-client.c: the client of the xdg-shell and presentation-time check, and the calls
-- that it makes of libwayland, in order.
pub mod Main
pub mod Routed
pub mod Joined
pub mod Waits
pub mod Stages
pub mod Beginnings
pub mod Session
mod Tests
use wayring.Base.{◌==◌, if◌then◌else◌, ℕ, Bool, true, false, ◌&&◌, Option, none, List, [], ◌∷◌}
use Prim.Native.String.{String}
use wayring.Bench.Texts.{streq}

-- `struct client_state`
pub record XdgClient : Type 0 where
  pub compositor : Option ℕ
  pub wm_base : Option ℕ
  pub presentation : Option ℕ
  pub pinged : Bool
  pub configured : Bool
  pub clock_seen : Bool
  pub presented : Bool
  pub discarded : Bool

-- What the client asks of the server. A surface that is made has what the call returns.
pub data Call : Type 0 where
  create_surface : Option ℕ → Call
  get_xdg_surface : Option ℕ → Call
  get_toplevel : Option ℕ → Option ℕ → Call
  ask_feedback : Option ℕ → Call
  commit : Call
  pong : ℕ → Call
  ack_configure : ℕ → Call
  toplevel_destroy xdg_surface_destroy surface_destroy wm_base_destroy presentation_destroy :
      ℕ → Call
  compositor_destroy : ℕ → Call
  registry_destroy flush disconnect : Call

abbrev pub Handled : Type 0
Handled = XdgClient × List Call

abbrev pub Handler : Type 0
Handler = XdgClient → Handled

handle_clock_id : ℕ → Handler
handle_clock_id clock_id c = (if clock_id == 1 then record c { clock_seen = true } else c, [])

handle_feedback_sync_output : Handler
handle_feedback_sync_output c = (c, [])

-- What `handle_feedback_presented` requires of its arguments. The flags are
-- WP_PRESENTATION_FEEDBACK_KIND_VSYNC, which is 1.
abbrev pub is_first : (tv_sec_hi tv_sec_lo tv_nsec refresh seq_hi seq_lo flags : ℕ) → Bool
is_first tv_sec_hi tv_sec_lo tv_nsec refresh seq_hi seq_lo flags =
    (tv_sec_hi == 1)
    && ((tv_sec_lo == 2)
        && ((tv_nsec == 3)
            && ((refresh == 16666667) && ((seq_hi == 4) && ((seq_lo == 5) && (flags == 1))))))

handle_feedback_presented : (tv_sec_hi tv_sec_lo tv_nsec refresh seq_hi seq_lo flags : ℕ) → Handler
handle_feedback_presented tv_sec_hi tv_sec_lo tv_nsec refresh seq_hi seq_lo flags c = (
  if is_first tv_sec_hi tv_sec_lo tv_nsec refresh seq_hi seq_lo flags
      then record c { presented = true }
      else c,
  [],
)

handle_feedback_discarded : Handler
handle_feedback_discarded c = (record c { discarded = true }, [])

handle_ping : ℕ → Handler
handle_ping serial c = (record c { pinged = true }, pong serial ∷ [])

-- `bound` is what wl_registry_bind returned.
handle_global : String → Option ℕ → Handler
handle_global interface bound c = (
  if streq interface "wl_compositor"
      then record c { compositor = bound }
      else if streq interface "xdg_wm_base"
      then record c { wm_base = bound }
      else if streq interface "wp_presentation"
      then record c { presentation = bound }
      else c,
  [],
)

handle_global_remove : Handler
handle_global_remove c = (c, [])

handle_xdg_surface_configure : ℕ → Handler
handle_xdg_surface_configure serial c = (record c { configured = true }, ack_configure serial ∷ [])

handle_toplevel_configure : Handler
handle_toplevel_configure c = (c, [])

handle_toplevel_close : Handler
handle_toplevel_close c = (c, [])

handle_configure_bounds : Handler
handle_configure_bounds c = (c, [])

handle_wm_capabilities : Handler
handle_wm_capabilities c = (c, [])

-- The events that the listeners route to the handlers.
pub data Event : Type 0 where
  clock : ℕ → Event
  syncs_output : Event
  presents : ℕ → ℕ → ℕ → ℕ → ℕ → ℕ → ℕ → Event
  discards : Event
  pings : ℕ → Event
  global : String → Option ℕ → Event
  global_remove : Event
  configures : ℕ → Event
  configures_toplevel closes sets_bounds tells_capabilities : Event

unfoldable pub step : Event → Handler
unfolding handle_clock_id handle_feedback_sync_output handle_feedback_presented
    handle_feedback_discarded handle_ping handle_global handle_global_remove
    handle_xdg_surface_configure handle_toplevel_configure handle_toplevel_close
    handle_configure_bounds handle_wm_capabilities
step (clock n) = handle_clock_id n
step syncs_output = handle_feedback_sync_output
step (presents hi lo nsec refresh seq_hi seq_lo flags) =
    handle_feedback_presented hi lo nsec refresh seq_hi seq_lo flags
step discards = handle_feedback_discarded
step (pings serial) = handle_ping serial
step (global interface bound) = handle_global interface bound
step global_remove = handle_global_remove
step (configures serial) = handle_xdg_surface_configure serial
step configures_toplevel = handle_toplevel_configure
step closes = handle_toplevel_close
step sets_bounds = handle_configure_bounds
step tells_capabilities = handle_wm_capabilities

-- `struct client_state state = {0};`
abbrev pub init : XdgClient
init = record {
  compositor = none;
  wm_base = none;
  presentation = none;
  pinged = false;
  configured = false;
  clock_seen = false;
  presented = false;
  discarded = false;
}

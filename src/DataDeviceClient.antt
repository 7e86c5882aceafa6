-- ===== src/DataDeviceClient.antt =====
-- src/bench/data-device-interop-client.c: the client of the selection and drag-and-drop check, and the
-- calls that it makes of libwayland and of the kernel, in order.
pub mod Main
pub mod Cleanup
pub mod Answers
pub mod Status
mod Tests
use wayring.Base.{
  ◌==◌, if◌then◌else◌, ℕ, Bool, true, false, not, ◌&&◌, ◌||◌, Option, none, some, List, [], ◌∷◌,
}
use Prim.Native.String.{String}
use wayring.Bench.{same, is_null, minus, fixed, has_cloexec_bit}
use wayring.Bench.Texts.{streq, is_text, is_written}
use wayring.DataDeviceServer.{copy_or_move, move}

-- `struct data_device_client_state`. A descriptor that is negative is `none`.
pub record Client : Type 0 where
  pub seat : Option ℕ
  pub manager : Option ℕ
  pub compositor : Option ℕ
  pub sent : Bool
  pub target : Bool
  pub drop_performed : Bool
  pub finished : Bool
  pub action : Bool
  pub offer : Option ℕ
  pub offer_read_fd : Option ℕ
  pub mime_offered : Bool
  pub source_actions_offered : Bool
  pub action_offered : Bool
  pub enter : Bool
  pub motion : Bool
  pub drop : Bool
  pub leave : Bool

-- What the client asks of the server and of the kernel.
pub data Call : Type 0 where
  create_data_source get_data_device create_surface : Call
  source_offer : String → Call
  source_set_actions : ℕ → Call
  device_set_selection : Option ℕ → ℕ → Call
  device_start_drag : Option ℕ → Option ℕ → Option ℕ → ℕ → Call
  offer_accept : Option ℕ → ℕ → String → Call
  offer_set_actions : Option ℕ → ℕ → ℕ → Call
  offer_receive : Option ℕ → String → ℕ → Call
  offer_finish : Option ℕ → Call
  close : ℕ → Call
  offer_destroy source_destroy device_release surface_destroy manager_destroy seat_release :
      ℕ → Call
  compositor_destroy : ℕ → Call
  registry_destroy flush disconnect : Call

abbrev pub Handled : Type 0
Handled = Client × List Call

abbrev pub Handler : Type 0
Handler = Client → Handled

offer_mime : String → Handler
offer_mime mime c = (if streq mime "text/plain" then record c { mime_offered = true } else c, [])

offer_source_actions : ℕ → Handler
offer_source_actions actions c =
    (if actions == copy_or_move then record c { source_actions_offered = true } else c, [])

offer_action : ℕ → Handler
offer_action a c = (if a == move then record c { action_offered = true } else c, [])

source_target : Option String → Handler
source_target mime c = (if is_text mime "text/plain" then record c { target = true } else c, [])

-- `flags` is what fcntl returned for the descriptor, `written` what write returned.
source_send : String → ℕ → Option ℕ → Option ℕ → Handler
source_send mime fd flags written c =
    if not (streq mime "text/plain") || not (has_cloexec_bit flags) then (c, close fd ∷ []) else (
      if is_written written "libwayland-selection" then record c { sent = true } else c,
      close fd ∷ [],
    )

source_cancelled : Handler
source_cancelled c = (c, [])

source_dnd_drop_performed : Handler
source_dnd_drop_performed c = (record c { drop_performed = true }, [])

source_dnd_finished : Handler
source_dnd_finished c = (record c { finished = true }, [])

source_action : ℕ → Handler
source_action a c = (if a == move then record c { action = true } else c, [])

device_data_offer : Option ℕ → Handler
device_data_offer o c = (record c { offer = o }, [])

device_enter : ℕ → Option ℕ → ℕ → ℕ → Option ℕ → Handler
device_enter serial surface x y o c =
    if (serial == 99)
      && (not (is_null surface) && ((x == 384) && ((y == minus (fixed 2)) && same o c.offer)))
    then (
      record c { enter = true },
      offer_accept o serial "text/plain" ∷ offer_set_actions o copy_or_move move ∷ [],
    )
    else (c, [])

device_leave : Handler
device_leave c = (record c { leave = true }, [])

device_motion : ℕ → ℕ → ℕ → Handler
device_motion time x y c = (
  if (time == 300) && ((x == fixed 2) && (y == fixed 3)) then record c { motion = true } else c,
  [],
)

-- `pipe` is the pair of descriptors that pipe2 made, if it succeeded.
device_drop : Option (ℕ × ℕ) → Handler
device_drop none c = (c, [])
device_drop (some (reading, writing)) c = (
  record c { offer_read_fd = some reading; drop = true },
  offer_receive c.offer "text/plain" writing ∷ close writing ∷ offer_finish c.offer ∷ [],
)

device_selection : Option ℕ → Handler
device_selection o c = (c, [])

-- `bound` is what wl_registry_bind returned.
registry_global : String → Option ℕ → Handler
registry_global interface bound c = (
  if streq interface "wl_seat"
      then record c { seat = bound }
      else if streq interface "wl_data_device_manager"
      then record c { manager = bound }
      else if streq interface "wl_compositor"
      then record c { compositor = bound }
      else c,
  [],
)

registry_global_remove : Handler
registry_global_remove c = (c, [])

-- The events that the listeners route to the handlers.
pub data Event : Type 0 where
  offers_type : String → Event
  offers_source_actions offers_action : ℕ → Event
  targets : Option String → Event
  sends : String → ℕ → Option ℕ → Option ℕ → Event
  cancels drop_performs finishes : Event
  acts : ℕ → Event
  offers : Option ℕ → Event
  enters : ℕ → Option ℕ → ℕ → ℕ → Option ℕ → Event
  leaves : Event
  moves : ℕ → ℕ → ℕ → Event
  drops : Option (ℕ × ℕ) → Event
  selects : Option ℕ → Event
  global : String → Option ℕ → Event
  global_remove : Event

unfoldable pub step : Event → Handler
unfolding offer_mime offer_source_actions offer_action source_target source_send source_cancelled
    source_dnd_drop_performed source_dnd_finished source_action device_data_offer device_enter
    device_leave device_motion device_drop device_selection registry_global registry_global_remove
step (offers_type mime) = offer_mime mime
step (offers_source_actions a) = offer_source_actions a
step (offers_action a) = offer_action a
step (targets mime) = source_target mime
step (sends mime fd flags written) = source_send mime fd flags written
step cancels = source_cancelled
step drop_performs = source_dnd_drop_performed
step finishes = source_dnd_finished
step (acts a) = source_action a
step (offers o) = device_data_offer o
step (enters n surface x y o) = device_enter n surface x y o
step leaves = device_leave
step (moves t x y) = device_motion t x y
step (drops pipe) = device_drop pipe
step (selects o) = device_selection o
step (global i b) = registry_global i b
step global_remove = registry_global_remove

-- `struct data_device_client_state state = {.offer_read_fd = -1};`
abbrev pub init : Client
init = record {
  seat = none;
  manager = none;
  compositor = none;
  sent = false;
  target = false;
  drop_performed = false;
  finished = false;
  action = false;
  offer = none;
  offer_read_fd = none;
  mime_offered = false;
  source_actions_offered = false;
  action_offered = false;
  enter = false;
  motion = false;
  drop = false;
  leave = false;
}

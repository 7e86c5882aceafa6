-- ===== src/DataDeviceServer.antt =====
-- src/bench/data-device-interop-server.c: the peer of the selection and drag-and-drop check. It takes
-- a selection through a pipe, plays a drag of the client's own source, and offers data of its own.
pub mod Run
pub mod Causes
pub mod Pipes
mod Tests
use wayring.Base.{
  ◌==◌, if◌then◌else◌, ℕ, ◌+◌, Bool, true, not, ◌||◌, Option, none, some, List, [], ◌∷◌, ◌++◌,
}
use Prim.Native.String.{String}
use wayring.Bench.{
  Effect, send, post_no_memory, terminate, destroy_resource, close_fd, Step, same, is_null, minus,
  fixed, has_cloexec_bit, reject, make,
}
use wayring.Bench.Texts.{streq, is_text, is_read, is_written}

-- `struct data_device_server_state`, without the handles that only libwayland reads. A descriptor
-- that is negative is `none`.
pub record DataDeviceServer : Type 0 where
  pub source : Option ℕ
  pub origin : Option ℕ
  pub icon : Option ℕ
  pub device : Option ℕ
  pub offer : Option ℕ
  pub source_read_fd : Option ℕ
  pub source_created : Bool
  pub device_created : Bool
  pub source_offered : Bool
  pub selection_set : Bool
  pub source_sent : Bool
  pub offer_received : Bool
  pub offer_destroyed : Bool
  pub source_destroyed : Bool
  pub device_released : Bool
  pub seat_released : Bool
  pub source_actions : Bool
  pub drag_started : Bool
  pub drag_events : Bool
  pub surfaces_destroyed : ℕ
  pub offer_accepted : Bool
  pub offer_actions : Bool
  pub offer_finished : Bool
  pub destination_events : Bool

-- The events that it sends, each with the object that sends it.
pub data Event : Type 0 where
  source_target : Option ℕ → String → Event
  source_action : Option ℕ → ℕ → Event
  source_dnd_drop_performed source_dnd_finished : Option ℕ → Event
  source_send : Option ℕ → String → ℕ → Event
  device_data_offer : Option ℕ → Option ℕ → Event
  offer_offer : Option ℕ → String → Event
  offer_source_actions offer_action : Option ℕ → ℕ → Event
  device_enter : Option ℕ → ℕ → Option ℕ → ℕ → ℕ → Option ℕ → Event
  device_motion : Option ℕ → ℕ → ℕ → ℕ → Event
  device_drop device_leave : Option ℕ → Event

abbrev pub Handler : Type 0
Handler = DataDeviceServer → Step DataDeviceServer Event

-- WL_DATA_DEVICE_MANAGER_DND_ACTION_COPY is 1 and WL_DATA_DEVICE_MANAGER_DND_ACTION_MOVE is 2.
abbrev pub copy_or_move : ℕ
copy_or_move = 3

abbrev pub move : ℕ
move = 2

offer_accept : ℕ → Option String → Handler
offer_accept serial mime s =
    if not (serial == 99) || not (is_text mime "text/plain")
    then reject s
    else (record s { offer_accepted = true }, [])

-- `flags` is what fcntl returned for the descriptor, `written` what write returned.
offer_receive : String → ℕ → Option ℕ → Option ℕ → Handler
offer_receive mime fd flags written s =
    if not (streq mime "text/plain") || not (has_cloexec_bit flags)
    then (s, close_fd fd ∷ [])
    else (
      if is_written written "libwayland-offer" then record s { offer_received = true } else s,
      close_fd fd ∷ [],
    )

offer_destroy : ℕ → Handler
offer_destroy resource s = (record s { offer_destroyed = true }, destroy_resource resource ∷ [])

offer_finish : Handler
offer_finish s = (record s { offer_finished = true }, [])

offer_set_actions : ℕ → ℕ → Handler
offer_set_actions actions preferred s =
    if not (actions == copy_or_move) || not (preferred == move)
    then reject s
    else (record s { offer_actions = true }, [])

source_offer : String → Handler
source_offer mime s =
    (if streq mime "text/plain" then record s { source_offered = true } else s, [])

-- `close` of a descriptor that may be negative, which closes nothing then.
abbrev pub close_held : Option ℕ → List (Effect Event)
close_held none = []
close_held (some fd) = close_fd fd ∷ []

-- `arrived` is what read gave of `source_read_fd`.
source_destroy : ℕ → Option (List ℕ) → Handler
source_destroy resource arrived s = (
  record s {
    source_read_fd = none;
    source_destroyed = if is_read arrived "wayring-selection" then true else s.source_destroyed;
  },
  close_held s.source_read_fd ++ (destroy_resource resource ∷ []),
)

source_set_actions : ℕ → Handler
source_set_actions actions s =
    if not (actions == copy_or_move) then reject s else (record s { source_actions = true }, [])

device_start_drag : Option ℕ → Option ℕ → Option ℕ → ℕ → Handler
device_start_drag source origin icon serial s =
    if not s.source_actions
      || (not (same source s.source)
          || (not (same origin s.origin) || (not (same icon s.icon) || not (serial == 88))))
    then reject s
    else (
      record s { drag_started = true; drag_events = true },
      send (source_target source "text/plain")
          ∷ send (source_action source move)
          ∷ send (source_dnd_drop_performed source)
          ∷ send (source_dnd_finished source)
          ∷ [],
    )

-- `pipe` is the pair of descriptors that pipe2 made, if it succeeded.
abbrev pub set_piped : Option ℕ → Option (ℕ × ℕ) → Handler
set_piped source none s = reject s
set_piped source (some (reading, writing)) s = (
  record s { source_read_fd = some reading; selection_set = true; source_sent = true },
  send (source_send source "text/plain" writing) ∷ close_fd writing ∷ [],
)

device_set_selection : Option ℕ → ℕ → Option (ℕ × ℕ) → Handler
device_set_selection source serial pipe s =
    if is_null source || (not (serial == 77) || not s.source_offered)
    then reject s
    else set_piped source pipe s

device_release : ℕ → Handler
device_release resource s = (record s { device_released = true }, destroy_resource resource ∷ [])

manager_create_source : Option ℕ → Handler
manager_create_source created s =
    if is_null created
    then (s, post_no_memory ∷ [])
    else (record s { source = created; source_created = true }, [])

abbrev pub offered : Option ℕ → Option ℕ → List (Effect Event)
offered device offer =
    send (device_data_offer device offer)
    ∷ send (offer_offer offer "text/plain")
    ∷ send (offer_source_actions offer copy_or_move)
    ∷ send (offer_action offer move)
    ∷ []

-- What the two calls of wl_resource_create returned, the second made only after the first succeeded.
manager_get_device : Option ℕ → Option ℕ → Handler
manager_get_device none offer s = (s, post_no_memory ∷ [])
manager_get_device (some device) offer s =
    if is_null offer then (s, destroy_resource device ∷ post_no_memory ∷ []) else (
      record s { device = some device; offer = offer; device_created = true },
      offered (some device) offer,
    )

bind_manager : Option ℕ → Handler
bind_manager created s = make created s

seat_get_pointer : Handler
seat_get_pointer s = reject s

seat_get_keyboard : Handler
seat_get_keyboard s = reject s

seat_get_touch : Handler
seat_get_touch s = reject s

seat_release : ℕ → Handler
seat_release resource s = (record s { seat_released = true }, destroy_resource resource ∷ [])

bind_seat : Option ℕ → Handler
bind_seat created s = make created s

surface_destroy : ℕ → Handler
surface_destroy resource s =
    (record s { surfaces_destroyed = s.surfaces_destroyed + 1 }, destroy_resource resource ∷ [])

abbrev pub dropped : DataDeviceServer → List (Effect Event)
dropped s =
    send (device_enter s.device 99 s.origin 384 (minus (fixed 2)) s.offer)
    ∷ send (device_motion s.device 300 (fixed 2) (fixed 3))
    ∷ send (device_drop s.device)
    ∷ send (device_leave s.device)
    ∷ []

compositor_create_surface : Option ℕ → Handler
compositor_create_surface created s =
    if is_null created
    then (s, post_no_memory ∷ [])
    else if is_null s.origin
    then (record s { origin = created }, [])
    else (record s { icon = created; destination_events = true }, dropped s)

compositor_create_region : Handler
compositor_create_region s = reject s

bind_compositor : Option ℕ → Handler
bind_compositor created s = make created s

handle_client_destroy : Handler
handle_client_destroy s = (s, terminate ∷ [])

-- ===== src/Bench/Launch.antt =====
-- How each server program of bench is set up: its display, its globals, its one client, the event
-- loop, and the display's end.
use wayring.Base.{if◌then◌else◌, ◌≡◌, Bool, true, false, not, ◌&&◌, List, [], ◌∷◌, arith}

-- What wl_display_create, the wl_global_create calls and wl_client_create returned: whether each is
-- not NULL.
pub record Setup : Type 0 where
  pub display : Bool
  pub globals : List Bool
  pub client : Bool

pub record Outcome : Type 0 where
  pub success : Bool
  pub display_destroyed : Bool

-- `||` over the globals stops at the first that is NULL.
unfoldable pub all_made : List Bool → Bool
all_made [] = true
all_made (g ∷ gs) = if g then all_made gs else false

-- The body of a `*_server_fd` whose verdict after the event loop is `verdict`.
unfoldable pub launch : Setup → Bool → Outcome
launch env verdict =
    if not env.display
    then record { success = false; display_destroyed = false }
    else if not (all_made env.globals)
    then record { success = false; display_destroyed = true }
    else if not env.client
    then record { success = false; display_destroyed = true }
    else record { success = verdict; display_destroyed = true }

-- On every path a display that was created is destroyed, and no other.
pub launch-display_destroyed :
    (env : Setup) (verdict : Bool) → (launch env verdict).display_destroyed ≡ env.display
unfolding launch
launch-display_destroyed env verdict = ground arith

pub launch_success :
    (env : Setup) (verdict : Bool)
    → (launch env verdict).success
      ≡ env.display && (all_made env.globals && (env.client && verdict))
unfolding launch
launch_success env verdict = ground arith

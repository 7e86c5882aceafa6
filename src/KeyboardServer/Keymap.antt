-- ===== src/KeyboardServer/Keymap.antt =====
-- src/bench/keyboard-interop-server.c: the keymap's descriptor, and the surface that the keyboard's
-- events name.
use wayring.Base.{
  All, ℕ, ◌+◌, ◌≡◌, refl, sym, ap₂, ◌∙◌, Bool, Option, none, some, List, [], ◌∷◌, ◌++◌, arith,
}
use wayring.Bench.{Effect, send}
use wayring.Bench.Descriptors.{count, closes, count-append, closes-append}
use wayring.Bench.History.{calls}
use wayring.KeyboardServer.{
  KeyboardServer, Made, Request, releases_keyboard, gets_keyboard, Event, enter, leave, on_surface,
  step,
}

-- The descriptor of the memory file, if memfd_create is reached and makes one.
abbrev opened_for : Option ℕ → Option ℕ → Option ℕ → List ℕ
opened_for (some surface) (some keyboard) (some fd) = fd ∷ []
opened_for _ _ _ = []

unfoldable pub opened : Request → KeyboardServer → List ℕ
opened (gets_keyboard made) s = opened_for s.surface made.keyboard made.keymap_fd
opened _ s = []

nothing : (fd : ℕ) → closes {E = Event} fd [] ≡ count fd []
unfolding closes count
nothing fd = refl

unfoldable pub all_opened : List Request → KeyboardServer → List ℕ
all_opened [] s = []
all_opened (r ∷ rs) s = opened r s ++ all_opened rs (step r s).0

closes-on_surface :
    (fd : ℕ) (surface keyboard keymap_fd written : Option ℕ) (sought : Bool)
    → let made : Made = record {
      keyboard = keyboard;
      keymap_fd = keymap_fd;
      written = written;
      sought = sought;
    } in
      closes fd (on_surface surface made) ≡ count fd (opened_for surface keyboard keymap_fd)
unfolding closes count
closes-on_surface fd none k m w b = refl
closes-on_surface fd (some s) none m w b = refl
closes-on_surface fd (some s) (some k) none w b = refl
closes-on_surface fd (some s) (some k) (some x) w b = ground arith

step-closes :
    (fd : ℕ) (r : Request) (s : KeyboardServer) → closes fd (step r s).1 ≡ count fd (opened r s)
unfolding step opened closes count
step-closes fd (gets_keyboard made) s =
    closes-on_surface fd s.surface made.keyboard made.keymap_fd made.written made.sought
step-closes fd _ s = ground arith

-- Over any history each memory file that was made is closed, exactly once.
pub keymaps_closed :
    (fd : ℕ) (rs : List Request) (s : KeyboardServer)
    → closes fd (calls step s rs) ≡ count fd (all_opened rs s)
unfolding calls all_opened
keymaps_closed fd [] s = nothing fd
keymaps_closed fd (r ∷ rs) s =
    closes-append fd (step r s).1 (calls step (step r s).0 rs)
    ∙ ap₂ (◌+◌) (step-closes fd r s) (keymaps_closed fd rs (step r s).0)
    ∙ sym (count-append fd (opened r s) (all_opened rs (step r s).0))

-- The resource of a surface that an event names.
abbrev pub IsOn : KeyboardServer → Effect Event → Type 0
IsOn s (send (enter k serial surface keys)) = s.surface ≡ some surface
IsOn s (send (leave k serial surface)) = s.surface ≡ some surface
IsOn s _ = Unit

on_surface-IsOn :
    (s : KeyboardServer) (surface keyboard keymap_fd written : Option ℕ) (sought : Bool)
    → s.surface ≡ surface
    → All (IsOn s) (
        on_surface surface (record {
          keyboard = keyboard;
          keymap_fd = keymap_fd;
          written = written;
          sought = sought;
        }))
on_surface-IsOn s none k m w b e = ground arith
on_surface-IsOn s (some u) none m w b e = ground arith
on_surface-IsOn s (some u) (some k) none w b e = ground arith
on_surface-IsOn s (some u) (some k) (some x) w b e = ground arith

-- The keyboard's events name the surface that the server holds when it makes the keyboard, and no
-- keyboard is made without one.
pub step-IsOn : (r : Request) (s : KeyboardServer) → All (IsOn s) (step r s).1
unfolding step
step-IsOn (gets_keyboard made) s =
    on_surface-IsOn s s.surface made.keyboard made.keymap_fd made.written made.sought refl
step-IsOn (releases_keyboard r) s = ground arith
step-IsOn _ s = ground arith

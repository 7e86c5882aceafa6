-- ===== src/DataDeviceServer/Pipes.antt =====
-- src/bench/data-device-interop-server.c: the descriptors that reach the server, or that it makes, and
-- those that it closes.
use wayring.Base.{
  ◌==◌, if◌then◌else◌, ℕ, ◌+◌, ◌≡◌, refl, Bool, true, not, ◌||◌, Option, none, some, List, [], ◌∷◌,
  ◌++◌, arith,
}
use wayring.Bench.{is_null, destroy_resource}
use wayring.Bench.Descriptors.{count, closes, count-append, closes-append}
use wayring.Bench.History.{run, calls}
use wayring.DataDeviceServer.{DataDeviceServer, Event, close_held}
use wayring.DataDeviceServer.Run.{
  Request, receive, set_selection, destroy_source, get_device, step, init, after_loop,
}

abbrev held_of : Option ℕ → List ℕ
held_of none = []
held_of (some fd) = fd ∷ []

abbrev pub held : DataDeviceServer → List ℕ
held s = held_of s.source_read_fd

-- The two ends of a pipe, if pipe2 is reached and makes one.
abbrev pub piped : Option ℕ → ℕ → Option (ℕ × ℕ) → DataDeviceServer → List ℕ
piped source serial none s = []
piped source serial (some (reading, writing)) s =
    if is_null source || (not (serial == 77) || not s.source_offered)
    then []
    else reading ∷ writing ∷ []

-- The descriptors that a request makes the server's.
unfoldable pub given : Request → DataDeviceServer → List ℕ
given (receive mime fd flags written) s = fd ∷ []
given (set_selection source serial pipe) s = piped source serial pipe s
given _ s = []

unfoldable pub all_given : List Request → DataDeviceServer → List ℕ
all_given [] s = []
all_given (r ∷ rs) s = given r s ++ all_given rs (step r s).0

-- A selection is not set again while the pipe of another is held.
abbrev pub is_spaced : Request → DataDeviceServer → Bool
is_spaced (set_selection source serial pipe) s = is_null s.source_read_fd
is_spaced _ s = true

unfoldable pub AreSpaced : List Request → DataDeviceServer → Type 0
AreSpaced [] s = Unit
AreSpaced (r ∷ rs) s = (is_spaced r s ≡ true) × AreSpaced rs (step r s).0

closes-close_held : (fd : ℕ) (o : Option ℕ) → closes fd (close_held o) ≡ count fd (held_of o)
unfolding closes count
closes-close_held fd none = refl
closes-close_held fd (some x) = refl

null_held : (fd : ℕ) (o : Option ℕ) → is_null o ≡ true → count fd (held_of o) ≡ 0
unfolding count
null_held fd none e = refl
null_held fd (some x) e = cc

step-closes :
    (fd : ℕ) (r : Request) (s : DataDeviceServer)
    → is_spaced r s ≡ true
    → closes fd (step r s).1 + count fd (held (step r s).0)
      ≡ count fd (held s) + count fd (given r s)
unfolding step given closes count
step-closes fd (receive a b c d) s h = ground arith
step-closes fd (set_selection a b none) s h = ground arith
step-closes fd (set_selection a b (some p)) s h = ground (arith, null_held fd s.source_read_fd)
step-closes fd (destroy_source r a) s h = ground (
  arith,
  closes-append fd (close_held s.source_read_fd) (destroy_resource r ∷ []),
  closes-close_held fd s.source_read_fd,
)
step-closes fd (get_device none b) s h = ground arith
step-closes fd (get_device (some a) b) s h = ground arith
step-closes fd _ s h = ground arith

nothing : (fd : ℕ) → (closes {E = Event} fd [] ≡ 0) × (count fd [] ≡ 0)
unfolding closes count
nothing fd = (refl, refl)

run-closes :
    (fd : ℕ) (rs : List Request) (s : DataDeviceServer)
    → AreSpaced rs s
    → closes fd (calls step s rs) + count fd (held (run step s rs))
      ≡ count fd (held s) + count fd (all_given rs s)
unfolding run calls all_given AreSpaced
run-closes fd [] s h = ground (arith, nothing fd)
run-closes fd (r ∷ rs) s (h, hs) = ground (
  arith,
  closes-append fd (step r s).1 (calls step (step r s).0 rs),
  count-append fd (given r s) (all_given rs (step r s).0),
  step-closes fd r s h,
  run-closes fd rs (step r s).0 hs,
)

-- Over a whole run, in which no selection is set while the pipe of another is held, the server closes
-- each descriptor exactly as often as it was given it.
pub all_closed :
    (fd : ℕ) (rs : List Request)
    → AreSpaced rs init
    → closes fd (calls step init rs ++ after_loop (run step init rs)) ≡ count fd (all_given rs init)
unfolding after_loop
all_closed fd rs h = ground (
  arith,
  closes-append fd (calls step init rs) (close_held (run step init rs).source_read_fd),
  closes-close_held fd (run step init rs).source_read_fd,
  run-closes fd rs init h,
  null_held fd none refl,
)

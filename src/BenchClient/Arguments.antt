-- ===== src/BenchClient/Arguments.antt =====
-- src/bench/libwayland-client.c: `parse_count`, and how `main` reads its arguments and chooses a
-- program. An argument is a text, of which `strtoull` reads the character codes.
pub mod Counts
pub mod Chosen
use wayring.Base.{
  ltb, leb, ◌==◌, if◌then◌else◌, get_elem?, ℕ, ◌+◌, ◌-◌, ◌*◌, ◌%◌, ◌^◌, Bool, true, false, not,
  ◌&&◌, ◌||◌, Option, none, some, List, [], ◌∷◌,
}
use Prim.Native.String.{String}
use Prim.Native.Char.{code}
use wayring.Bench.Options.{Options, u64}
use wayring.Bench.Texts.{streq}
use wayring.BenchClient.{Mode, has_mode}
use wayring.BenchClient.Run.{with_some}

abbrev pub codes : String → List ℕ
codes String.[] = []
codes (String.◌∷◌ c s) = code c ∷ codes s

-- isspace and isdigit in the C locale.
abbrev pub is_space : ℕ → Bool
is_space c = (c == 32) || (leb 9 c && leb c 13)

abbrev pub is_digit : ℕ → Bool
is_digit c = leb 48 c && leb c 57

unfoldable pub skip_spaces : List ℕ → List ℕ
skip_spaces [] = []
skip_spaces (c ∷ cs) = if is_space c then skip_spaces cs else c ∷ cs

-- The number that starts a text, `so_far` in front of it, and the rest of the text.
unfoldable pub digits : ℕ → List ℕ → ℕ × List ℕ
digits so_far [] = (so_far, [])
digits so_far (c ∷ cs) = if is_digit c then digits (so_far * 10 + (c - 48)) cs else (so_far, c ∷ cs)

-- What strtoull gives: its result, whether it set errno, and what `*end` starts. `none` is a text with no
-- digits, for which it stores the text itself.
pub record Number : Type 0 where
  pub result : ℕ
  pub is_range_error : Bool
  pub end_of : List ℕ

abbrev pub number_of : Bool → ℕ × List ℕ → Number
number_of negated (n, rest) =
    if ltb (2 ^ 64 - 1) n
    then record { result = 2 ^ 64 - 1; is_range_error = true; end_of = rest }
    else record {
      result = if negated then u64 (2 ^ 64 - n) else n;
      is_range_error = false;
      end_of = rest;
    }

-- The digits behind a sign; `whole` is the text.
abbrev pub unsigned : Bool → List ℕ → List ℕ → Number
unsigned negated whole [] = record { result = 0; is_range_error = false; end_of = whole }
unsigned negated whole (c ∷ cs) =
    if is_digit c
    then number_of negated (digits 0 (c ∷ cs))
    else record { result = 0; is_range_error = false; end_of = whole }

abbrev pub signed : List ℕ → List ℕ → Number
signed whole [] = unsigned false whole []
signed whole (c ∷ cs) =
    if c == 45
    then unsigned true whole cs
    else if c == 43
    then unsigned false whole cs
    else unsigned false whole (c ∷ cs)

-- `strtoull(value, &end, 10)`
unfoldable pub strtoull : List ℕ → Number
strtoull value = signed value (skip_spaces value)

abbrev pub is_empty : List ℕ → Bool
is_empty [] = true
is_empty (c ∷ cs) = false

-- `parse_count`, of the codes of its text; `none` where it leaves the process with a failure.
unfoldable pub parse_count : List ℕ → Option ℕ
parse_count value =
    let n = strtoull value in
    if n.is_range_error || (is_empty value || not (is_empty n.end_of)) then none else some n.result

-- The count `argv[i]` if there is such an argument. `args` are the arguments behind the program's name.
abbrev pub count_or : ℕ → Option String → Option ℕ
count_or unset none = some unset
count_or unset (some value) = parse_count (codes value)

abbrev pub argument : List String → ℕ → ℕ → Option ℕ
argument args i unset = count_or unset (get_elem? args (i - 1))

abbrev pub u32 : ℕ → ℕ
u32 n = n % 2 ^ 32

-- `argv[5]`.
pub data Way : Type 0 where
  round_trip with_latency client_tx client_rx idle : Way

unfoldable pub way_of : String → Option Way
way_of value =
    if streq value "latency"
    then some with_latency
    else if streq value "client-tx"
    then some client_tx
    else if streq value "client-rx"
    then some client_rx
    else if streq value "idle"
    then some idle
    else if streq value "round-trip"
    then some round_trip
    else none

abbrev pub way_or : Option String → Option Way
way_or none = some round_trip
way_or (some value) = way_of value

abbrev pub has_latency : Way → Bool
has_latency with_latency = true
has_latency way = false

abbrev pub has_client_tx : Way → Bool
has_client_tx client_tx = true
has_client_tx way = false

abbrev pub has_client_rx : Way → Bool
has_client_rx client_rx = true
has_client_rx way = false

abbrev pub has_idle : Way → Bool
has_idle idle = true
has_idle way = false

-- The options and the mode that the arguments of `main` ask for, or `none` where it fails in them. The
-- counts that are not given are those of its initializers.
unfoldable pub read_arguments : List String → Option (Options × Mode)
read_arguments args = with_some (argument args 1 1000000) (λ messages.
    with_some (argument args 2 256) (λ batch. with_some (argument args 3 100000) (λ warmup.
      with_some (argument args 4 1) (λ connections. with_some (way_or (get_elem? args 4)) (λ way.
        with_some (argument args 6 1) (λ objects. with_some (argument args 7 1000) (λ idle_ms.
          some (
            record {
              warmup = warmup;
              messages = messages;
              batch = u32 batch;
              objects = u32 objects;
              latency = has_latency way;
            },
            record {
              connections = connections;
              client_tx = has_client_tx way;
              client_rx = has_client_rx way;
              idle = has_idle way;
              idle_ms = idle_ms;
            },
          ))))))))

-- What `main` runs: nothing, one of the programs with a raw peer, or the benchmark of its connections.
pub data Program : Type 0 where
  rejected : Program
  transmits receives : Options → Program
  measures : Options → Mode → Program

unfoldable pub choose : Options → Mode → Program
choose o m =
    if not (has_mode o m)
    then rejected
    else if m.client_tx
    then (if m.connections == 1 then transmits o else rejected)
    else if m.client_rx
    then (if m.connections == 1 then receives o else rejected)
    else measures o m

abbrev pub chosen : Option (Options × Mode) → Program
chosen none = rejected
chosen (some (o, m)) = choose o m

-- The program that `main` runs for its arguments.
unfoldable pub program_of : List String → Program
program_of args = chosen (read_arguments args)

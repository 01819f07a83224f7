-- ===== src/Oak/Shell.antt =====
-- What the commands of cmd/oak/main.go find around them, and what they leave.
use oakberryio.Prelude.{ℕ, Bool, false, Option, some, List, [], ◌∷◌, Text, t, nat_eq, text_eq}
use oakberryio.Prelude.Int.{ℤ, pos}
use oakberryio.Prelude.Dict.{Dict}
use oakberryio.Prelude.Results.{Error, Result, ok, err, usage}
use oakberryio.Appconfig.{Config}
use oakberryio.Extract.{Entry}
use oakberryio.Store.{MachineState}
use oakberryio.Wire.{Codec}
use oakberryio.Cli.Stream.{Followed}
use oakberryio.Cli.Transport.{Surroundings}
use oakberryio.Oak.Context.{Moby, Opened, Nodes}
use oakberryio.Oak.Flags.{Kind, Value, bool_value, text_value, int_value, FlagSet}

-- What the command finds: its surroundings, the working directory, the clock, and what encoding/json,
-- strconv, text/tabwriter, archive/tar, docker and the terminal make of what they are given.
pub record Shell : Type 0 where
  pub here : Surroundings
  pub codec : Codec
  pub parse_int : Text → Option ℤ
  pub tabulate : List (List Text) → List Text
  pub state_text : MachineState → Text
  pub unmarshal_toml : Text → Config → Option Config
  pub moby : Moby
  pub ignore_file : Opened
  pub working_dir : Nodes
  pub write_tar : List Entry → Text
  pub unix_time : ℕ
  -- whether this command line succeeds
  pub succeeds : List Text → Bool
  -- the Host of the base URL, or "unix"
  pub host_of : Text → Text
  -- all that comes back on a connection to oakd on which these bytes were sent
  pub exchange : Text → Option Text
  -- rows and columns, where stdin is a terminal; and whether it can be set to raw mode
  pub terminal : Option (Option (ℕ × ℕ))
  pub sets_raw : Bool
  pub write_header : List Text → ℕ → ℕ → Text

-- The programs that were started, the lines that were printed, what was sent on an ssh connection, and
-- the error if there is one.
pub record Ran : Type 0 where
  pub started : List (List Text)
  pub printed : List Text
  pub sent : Text
  pub outcome : Result (Unit {0})

unfoldable pub fails : Error → Ran
fails e = record { started = []; printed = []; sent = t ""; outcome = err e }

unfoldable pub shows : Followed (Unit {0}) → Ran
shows f = record { started = []; printed = f.printed; sent = t ""; outcome = f.outcome }

-- A call, and what is printed when it has succeeded
unfoldable pub prints : Result (List Text) → Ran
prints (err e) = fails e
prints (ok lines) = record { started = []; printed = lines; sent = t ""; outcome = ok tt }

-- if err != nil { return err }
abbrev pub on_ok : {A : Type 0} → Result A → (A → Ran) → Ran
on_ok (err e) next = fails e
on_ok (ok a) next = next a

abbrev pub after_start : List Text → Ran → Ran
after_start command r = record r { started = command ∷ r.started }

unfoldable pub text_of : Option Value → Text
text_of (some (text_value s)) = s
text_of v = t ""

unfoldable pub bool_of : Option Value → Bool
bool_of (some (bool_value b)) = b
bool_of v = false

unfoldable pub int_of : Option Value → ℤ
int_of (some (int_value n)) = n
int_of v = pos 0

-- The only argument
unfoldable pub single : List Text → Result Text
single [] = err usage
single (a ∷ []) = ok a
single (a ∷ b ∷ rest) = err usage

module _ (sh : Shell) where
  unfoldable pub flag_set : Dict Kind → FlagSet
  flag_set kinds = record { kinds = kinds; parse_int = sh.parse_int }

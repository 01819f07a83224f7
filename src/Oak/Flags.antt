-- ===== src/Oak/Flags.antt =====
-- Package flag as cmd/oak/main.go uses it, and parseFlagsAnywhere.
pub mod Anywhere
use oakberryio.Prelude.{
  ℕ, zero, suc, Bool, true, false, ◌||◌, Option, none, some, List, [], ◌∷◌, ◌++◌, Text, t, ◌==◌,
  nat_eq, text_eq, if◌then◌else◌, length, any,
}
use oakberryio.Prelude.Int.{ℤ}
use oakberryio.Prelude.Dict.{Dict, lookup, insert}
use oakberryio.Prelude.Results.{Error, Result, ok, err, bad_flag, help_shown, usage}
use oakberryio.Cli.Args.{cut_at_equals}

pub data Kind : Type 0 where
  bool_flag text_flag int_flag : Kind

pub data Value : Type 0 where
  bool_value : Bool → Value
  text_value : Text → Value
  int_value : ℤ → Value

-- What fs.Bool, fs.String and fs.Int declared. strconv.ParseInt in base 0 is a parameter.
pub record FlagSet : Type 0 where
  pub kinds : Dict Kind
  pub parse_int : Text → Option ℤ

-- strconv.ParseBool
unfoldable pub parse_bool : Text → Option Bool
parse_bool s =
    if any (λ w. s == w) (t "1" ∷ t "t" ∷ t "T" ∷ t "TRUE" ∷ t "true" ∷ t "True" ∷ [])
    then some true
    else if any (λ w. s == w) (t "0" ∷ t "f" ∷ t "F" ∷ t "FALSE" ∷ t "false" ∷ t "False" ∷ [])
    then some false
    else none

-- What one argument says.
pub data Token : Type 0 where
  -- no flag, which ends the flags
  plain : Token
  -- "--"
  terminator : Token
  sets : Text → Value → Token
  -- a flag whose value is the next argument
  wants : Text → Kind → Token
  wrong : Error → Token

module _ (fs : FlagSet) where
  -- flag.Value's Set
  unfoldable pub read_value : Kind → Text → Option Value
  read_value bool_flag s = elim (parse_bool s) [ none ↦ none | some b ↦ some (bool_value b) ]
  read_value text_flag s = some (text_value s)
  read_value int_flag s = elim (fs.parse_int s) [ none ↦ none | some n ↦ some (int_value n) ]

  abbrev set_to : Text → Option Value → Token
  set_to name none = wrong bad_flag
  set_to name (some v) = sets name v

  -- A flag that is declared, with the value behind its '=' if it has one
  unfoldable pub with_kind : Text → Kind → Option Text → Token
  with_kind name bool_flag none = sets name (bool_value true)
  with_kind name text_flag none = wants name text_flag
  with_kind name int_flag none = wants name int_flag
  with_kind name kind (some s) = set_to name (read_value kind s)

  unfoldable pub named : Text → Option Text → Token
  named name given = elim (lookup name fs.kinds) [
    | some kind ↦ with_kind name kind given
    | none ↦ if name == t "help" || name == t "h" then wrong help_shown else wrong bad_flag
  ]

  -- `body` is an argument without the dashes; a '=' at its start has no name in front.
  unfoldable pub read_body : Text → Token
  read_body [] = wrong bad_flag
  read_body (c ∷ s) =
      if c == b'-' || c == b'=' then wrong bad_flag else elim (cut_at_equals (c ∷ s)) [
        | none ↦ named (c ∷ s) none
        | some (name, value) ↦ named name (some value)
      ]

  -- FlagSet.parseOne
  unfoldable pub read_flag : Text → Token
  read_flag [] = plain
  read_flag (c ∷ []) = plain
  read_flag (c ∷ d ∷ s) =
      if c == b'-'
      then if d == b'-'
        then elim s [ [] ↦ terminator | e ∷ r ↦ read_body (e ∷ r) ]
        else read_body (d ∷ s)
      else plain

  -- FlagSet.Parse: what the flags are set to, and the arguments that are left. Under ExitOnError the
  -- process ends with an error.
  unfoldable pub parse : Dict Value → List Text → Result (Dict Value × List Text)
  parse vs [] = ok (vs, [])
  parse vs (s ∷ []) = elim (read_flag s) [
    | plain ↦ ok (vs, s ∷ [])
    | terminator ↦ ok (vs, [])
    | sets name v ↦ ok (insert name v vs, [])
    | wants name kind ↦ err bad_flag
    | wrong e ↦ err e
  ]
  parse vs (s ∷ value ∷ rest) = elim (read_flag s) [
    | plain ↦ ok (vs, s ∷ value ∷ rest)
    | terminator ↦ ok (vs, value ∷ rest)
    | sets name v ↦ parse (insert name v vs) (value ∷ rest)
    | wants name kind ↦ elim (read_value kind value) [
      | none ↦ err bad_flag
      | some v ↦ parse (insert name v vs) rest
    ]
    | wrong e ↦ err e
  ]

  -- The loop of parseFlagsAnywhere; every round takes an argument at least.
  unfoldable pub parse_rounds :
      ℕ → Dict Value → List Text → List Text → Option (Result (Dict Value × List Text))
  parse_rounds zero vs positional args = none
  parse_rounds (suc f) vs positional args = elim (parse vs args) [
    | err e ↦ some (err e)
    | ok (vs', []) ↦ some (ok (vs', positional))
    | ok (vs', a ∷ rest) ↦ parse_rounds f vs' (positional ++ a ∷ []) rest
  ]

  abbrev or_usage : Option (Result (Dict Value × List Text)) → Result (Dict Value × List Text)
  or_usage none = err usage
  or_usage (some r) = r

  unfoldable pub parse_flags_anywhere : Dict Value → List Text → Result (Dict Value × List Text)
  parse_flags_anywhere vs args = or_usage (parse_rounds (suc (length args)) vs [] args)

-- ===== src/Oak/Flags/Anywhere.antt =====
-- Where the flags of a command of oak may stand.
use oakberryio.Prelude.{
  ◌≡◌, ◌∙◌, refl, arith, ℕ, zero, suc, ◌≤◌, ◌<◌, some, List, [], ◌∷◌, ◌++◌, Text, length,
  Option-cases, inl, inr,
}
use mathlib.Core.List.{append_assoc, append-nil}
use oakberryio.Prelude.Dict.{Dict, insert}
use oakberryio.Prelude.Results.{Result, ok, err, Result-cases}
use oakberryio.Oak.Flags.{
  Kind, Value, FlagSet, Token, plain, terminator, sets, wants, wrong, read_value, read_flag, parse,
  parse_rounds, parse_flags_anywhere,
}

module _ (fs : FlagSet) where
  -- What Parse leaves is no longer than what it was given.
  abbrev Shorter : ℕ → List Text → Type 0
  Shorter n args =
      (vs vs' : Dict Value) (left : List Text) → parse fs vs args ≡ ok (vs', left) → length left ≤ n

  wider : (n m : ℕ) (args : List Text) → n ≤ m → Shorter n args → Shorter m args
  wider n m args le k vs vs' left h = omega (arith, k vs vs' left h)

  after_token :
      (vs : Dict Value) (s value : Text) (rest : List Text) (tk : Token) (n : ℕ)
      → read_flag fs s ≡ tk
      → Shorter n (value ∷ rest)
      → Shorter n rest
      → suc (suc (length rest)) ≤ n
      → (vs' : Dict Value) (left : List Text) → parse fs vs (s ∷ value ∷ rest) ≡ ok (vs', left)
      → length left ≤ n
  unfolding parse
  after_token vs s value rest plain n e one two le vs' left h = ground arith
  after_token vs s value rest terminator n e one two le vs' left h = ground arith
  after_token vs s value rest (sets name v) n e one two le vs' left h =
      one (insert name v vs) vs' left (ground arith)
  after_token vs s value rest (wants name kind) n e one two le vs' left h =
      elim (Option-cases (read_value fs kind value)) [
        | inl none_read ↦ ground arith
        | inr (v, read) ↦ two (insert name v vs) vs' left (ground arith)
      ]
  after_token vs s value rest (wrong why) n e one two le vs' left h = ground arith

  parse-length : (args : List Text) → Shorter (length args) args
  unfolding parse
  parse-length [] vs vs' left h = ground arith
  parse-length (s ∷ []) vs vs' left h = ground arith
  parse-length (s ∷ value ∷ rest) vs vs' left h =
      after_token vs s value rest (read_flag fs s) _ refl
        (wider _ _ (value ∷ rest) (omega arith) (parse-length (value ∷ rest)))
        (wider _ _ rest (omega arith) (parse-length rest)) (omega arith) vs' left h

  -- The loop ends: a round for each argument is enough, whatever the arguments are.
  pub parse_rounds_total :
      (f : ℕ) (vs : Dict Value) (positional args : List Text)
      → length args < f
      → (r : Result (Dict Value × List Text)) × (parse_rounds fs f vs positional args ≡ some r)
  unfolding parse_rounds
  parse_rounds_total zero vs positional args h = elim h [ ]
  parse_rounds_total (suc f) vs positional args h = elim (Result-cases (parse fs vs args)) [
    | inl (e, failed) ↦ (err e, rw (failed, parse_rounds) refl)
    | inr ((vs', []), parsed) ↦ (ok (vs', positional), rw (parsed, parse_rounds) refl)
    | inr ((vs', a ∷ rest), parsed) ↦
        rw (parsed, parse_rounds)
          (parse_rounds_total f vs' (positional ++ a ∷ []) rest
            (omega (arith, parse-length args vs vs' (a ∷ rest) parsed)))
  ]

  -- An argument list as it is meant: what stands for itself, and flags with their values.
  pub data Arg : Type 0 where
    word : (s : Text) → read_flag fs s ≡ plain → Arg
    switch : (s name : Text) (v : Value) → read_flag fs s ≡ sets name v → Arg
    option :
        (s value name : Text) (kind : Kind) (v : Value)
        → read_flag fs s ≡ wants name kind
        → read_value fs kind value ≡ some v
        → Arg

  unfoldable pub spelled : List Arg → List Text
  spelled [] = []
  spelled (word s e ∷ args) = s ∷ spelled args
  spelled (switch s name v e ∷ args) = s ∷ spelled args
  spelled (option s value name kind v e r ∷ args) = s ∷ value ∷ spelled args

  unfoldable pub words : List Arg → List Text
  words [] = []
  words (word s e ∷ args) = s ∷ words args
  words (switch s name v e ∷ args) = words args
  words (option s value name kind v e r ∷ args) = words args

  unfoldable pub settings : Dict Value → List Arg → Dict Value
  settings vs [] = vs
  settings vs (word s e ∷ args) = settings vs args
  settings vs (switch s name v e ∷ args) = settings (insert name v vs) args
  settings vs (option s value name kind v e r ∷ args) = settings (insert name v vs) args

  parse-plain :
      (vs : Dict Value) (s : Text) (rest : List Text)
      → read_flag fs s ≡ plain
      → parse fs vs (s ∷ rest) ≡ ok (vs, s ∷ rest)
  unfolding parse
  parse-plain vs s [] e = rw (e, parse) refl
  parse-plain vs s (x ∷ rest) e = rw (e, parse) refl

  parse-sets :
      (vs : Dict Value) (s : Text) (rest : List Text) (name : Text) (v : Value)
      → read_flag fs s ≡ sets name v
      → parse fs vs (s ∷ rest) ≡ parse fs (insert name v vs) rest
  unfolding parse
  parse-sets vs s [] name v e = rw (e, parse) refl
  parse-sets vs s (x ∷ rest) name v e = rw (e, parse) refl

  parse-wants :
      (vs : Dict Value) (s value : Text) (rest : List Text) (name : Text) (kind : Kind) (v : Value)
      → read_flag fs s ≡ wants name kind
      → read_value fs kind value ≡ some v
      → parse fs vs (s ∷ value ∷ rest) ≡ parse fs (insert name v vs) rest
  unfolding parse
  parse-wants vs s value rest name kind v e r = ground arith

  -- A round that begins as another does ends as it does.
  same_round :
      (f : ℕ) (vs vs' : Dict Value) (positional args args' : List Text)
      → parse fs vs args ≡ parse fs vs' args'
      → parse_rounds fs (suc f) vs positional args ≡ parse_rounds fs (suc f) vs' positional args'
  unfolding parse_rounds
  same_round f vs vs' positional args args' e = rw (e, parse_rounds) refl

  last_round :
      (f : ℕ) (vs : Dict Value) (positional : List Text)
      → parse_rounds fs (suc f) vs positional [] ≡ some (ok (vs, positional ++ []))
  unfolding parse_rounds parse
  last_round f vs positional = rw (append-nil positional) refl

  word_round :
      (f : ℕ) (vs : Dict Value) (positional : List Text) (s : Text) (rest : List Text)
      → read_flag fs s ≡ plain
      → parse_rounds fs (suc f) vs positional (s ∷ rest)
        ≡ parse_rounds fs f vs (positional ++ s ∷ []) rest
  unfolding parse_rounds
  word_round f vs positional s rest e = rw (parse-plain vs s rest e, parse_rounds) refl

  rounds-spelled :
      (args : List Arg) (f : ℕ) (vs : Dict Value) (positional : List Text)
      → length (spelled args) < f
      → parse_rounds fs f vs positional (spelled args)
        ≡ some (ok (settings vs args, positional ++ words args))
  unfolding parse_rounds spelled words settings
  rounds-spelled args zero vs positional h = elim h [ ]
  rounds-spelled [] (suc f) vs positional h = last_round f vs positional
  rounds-spelled (word s e ∷ args) (suc f) vs positional h =
      word_round f vs positional s (spelled args) e
      ∙ rounds-spelled args f vs (positional ++ s ∷ []) (omega arith)
      ∙ rw (append_assoc positional (s ∷ []) (words args)) refl
  rounds-spelled (switch s name v e ∷ args) (suc f) vs positional h =
      same_round f vs (insert name v vs) positional (s ∷ spelled args) (spelled args)
        (parse-sets vs s (spelled args) name v e)
      ∙ rounds-spelled args (suc f) (insert name v vs) positional (omega arith)
  rounds-spelled (option s value name kind v e r ∷ args) (suc f) vs positional h =
      same_round f vs (insert name v vs) positional (s ∷ value ∷ spelled args) (spelled args)
        (parse-wants vs s value (spelled args) name kind v e r)
      ∙ rounds-spelled args (suc f) (insert name v vs) positional (omega arith)

  -- Flags may stand before, between and behind the arguments, in either spelling: each flag is set, in
  -- their order, and the arguments are what is left, in theirs.
  pub parse_flags_anywhere-spelled :
      (vs : Dict Value) (args : List Arg)
      → parse_flags_anywhere fs vs (spelled args) ≡ ok (settings vs args, words args)
  unfolding parse_flags_anywhere
  parse_flags_anywhere-spelled vs args =
      rw (rounds-spelled args (suc (length (spelled args))) vs [] (omega arith)) refl

  -- The loop ends for any arguments: the result is that of its rounds.
  pub parse_flags_anywhere_total :
      (vs : Dict Value) (args : List Text)
      → parse_rounds fs (suc (length args)) vs [] args ≡ some (parse_flags_anywhere fs vs args)
  unfolding parse_flags_anywhere
  parse_flags_anywhere_total vs args =
      let (r, e) = parse_rounds_total (suc (length args)) vs [] args (omega arith) in rw e refl

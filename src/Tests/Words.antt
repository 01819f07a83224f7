-- ===== src/Tests/Words.antt =====
-- The arguments of "oak scale", with a flag on each side of the app's name.
use oakberryio.Prelude.{◌≡◌, refl, none, some, List, [], ◌∷◌, t, nat_eq, text_eq}
use oakberryio.Prelude.Int.{pos}
use oakberryio.Prelude.Dict.{lookup, insert}
use oakberryio.Prelude.Results.{ok}
use oakberryio.Text.Decimal.{read_digits, is_digit}
use oakberryio.Cli.Args.{cut_at_equals}
use oakberryio.Oak.Flags.{
  text_flag, int_flag, text_value, int_value, FlagSet, read_flag, read_body, named, with_kind,
  read_value, parse_rounds, parse_flags_anywhere,
}
use oakberryio.Oak.Flags.Anywhere.{
  Arg, word, switch, option, spelled, words, settings, parse_flags_anywhere-spelled,
  parse_flags_anywhere_total,
}

abbrev flags : FlagSet
flags = record {
  kinds = (t "memory", text_flag) ∷ (t "cpus", int_flag) ∷ [];
  parse_int = λ s. elim (read_digits 0 s) [ none ↦ none | some n ↦ some (pos n) ];
}

-- oak scale --memory=512mb web -cpus 2
abbrev args : List (Arg flags)
unfolding read_flag read_body named with_kind read_value cut_at_equals read_digits is_digit lookup
    nat_eq text_eq
args =
    switch (t "--memory=512mb") (t "memory") (text_value (t "512mb")) refl
    ∷ word (t "web") refl
    ∷ option (t "-cpus") (t "2") (t "cpus") int_flag (int_value (pos 2)) refl refl
    ∷ []

parse_flags_anywhere-spelled_example :
    parse_flags_anywhere flags [] (t "--memory=512mb" ∷ t "web" ∷ t "-cpus" ∷ t "2" ∷ [])
    ≡ ok ((t "memory", text_value (t "512mb")) ∷ (t "cpus", int_value (pos 2)) ∷ [], t "web" ∷ [])
unfolding args spelled words settings insert nat_eq text_eq
parse_flags_anywhere-spelled_example = parse_flags_anywhere-spelled flags [] args

parse_flags_anywhere_total_example :
    parse_rounds flags 3 [] [] (t "web" ∷ t "--loud" ∷ [])
    ≡ some (parse_flags_anywhere flags [] (t "web" ∷ t "--loud" ∷ []))
parse_flags_anywhere_total_example = parse_flags_anywhere_total flags [] (t "web" ∷ t "--loud" ∷ [])

-- ===== src/Cli/Args.antt =====
-- internal/cli/kv.go and internal/cli/memory.go.
pub mod Pairs
pub mod Memory
use oakberryio.Prelude.{
  ℕ, zero, suc, ◌+◌, ◌-◌, ◌*◌, ◌%◌, Bool, Option, none, some, List, [], ◌∷◌, Text, t, ltb, leb,
  ◌==◌, nat_eq, text_eq, if◌then◌else◌,
}
use oakberryio.Prelude.Int.{ℤ, pos, negsuc}
use oakberryio.Prelude.Dict.{Dict, insert}
use oakberryio.Prelude.Results.{Result, ok, err, bad_pair, bad_size, ◌>>=◌}
use oakberryio.Text.Trim.{trim_space, to_lower, cut_suffix}
use oakberryio.Deploy.ReleaseCommand.{read_number, atoi}

-- arg[:i] and arg[i+1:] at the first '='
unfoldable pub cut_at_equals : Text → Option (Text × Text)
cut_at_equals [] = none
cut_at_equals (c ∷ s) =
    let rest = cut_at_equals s in
    if c == b'='
    then some ([], s)
    else elim rest [ none ↦ none | some (key, value) ↦ some (c ∷ key, value) ]

-- One argument; `i <= 0` also refuses an empty key.
unfoldable pub split_pair : Text → Result (Text × Text)
split_pair arg = elim (cut_at_equals arg) [
  | none ↦ err bad_pair
  | some (key, value) ↦ if key == [] then err bad_pair else ok (key, value)
]

unfoldable pub parse_pairs : Dict Text → List Text → Result (Dict Text)
parse_pairs d [] = ok d
parse_pairs d (arg ∷ args) = split_pair arg >>= λ kv. parse_pairs (insert kv.0 kv.1 d) args

unfoldable pub parse_kv : List Text → Result (Dict Text)
parse_kv = parse_pairs []

-- strconv.Atoi, where a '+' may stand in front
unfoldable pub atoi_signed : Text → Option ℤ
atoi_signed [] = none
atoi_signed (c ∷ s) =
    if c == b'+'
    then elim (read_number s) [
      | none ↦ none
      | some n ↦ if leb n 9223372036854775807 then some (pos n) else none
    ]
    else atoi (c ∷ s)

-- int(n * m) for n and m that are not negative: 64 bits, two's complement
unfoldable pub times_int64 : ℕ → ℕ → ℤ
times_int64 n m =
    let bits = n * m % 18446744073709551616 in
    if ltb bits 9223372036854775808 then pos bits else negsuc (18446744073709551615 - bits)

-- numStr and multiplier
unfoldable pub unit_of : Text → Text × ℕ
unit_of lower = elim (cut_suffix (t "gb") lower) [
  | some number ↦ (number, 1024)
  | none ↦ elim (cut_suffix (t "mb") lower) [ some number ↦ (number, 1) | none ↦ (lower, 1) ]
]

-- n * multiplier, for a positive n
unfoldable pub scaled : ℕ → Option ℤ → Result ℤ
scaled multiplier none = err bad_size
scaled multiplier (some (negsuc n)) = err bad_size
scaled multiplier (some (pos zero)) = err bad_size
scaled multiplier (some (pos (suc n))) = ok (times_int64 (suc n) multiplier)

unfoldable pub parse_memory_mb : Text → Result ℤ
parse_memory_mb s =
    let lower = to_lower (trim_space s) in
    let (number, multiplier) = unit_of lower in
    if lower == [] then err bad_size else scaled multiplier (atoi_signed number)

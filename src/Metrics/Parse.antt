-- ===== src/Metrics/Parse.antt =====
-- The parsers of internal/metrics/metrics.go for files of /proc.
pub mod Comm
use oakberryio.Prelude.{
  ℕ, zero, suc, ◌+◌, ◌-◌, ◌*◌, ◌%◌, Bool, true, false, ◌||◌, not, Option, none, some, List, [], ◌∷◌,
  Text, t, ltb, leb, ◌==◌, nat_eq, text_eq, if◌then◌else◌, length,
}
use oakberryio.Prelude.Results.{Result, ok, err, bad_counter, from_option, ◌>>=◌}
use oakberryio.Text.Trim.{fields, cut_suffix}
use oakberryio.Paths.{split_on}
use oakberryio.Deploy.ReleaseCommand.{read_number}

-- uint64 arithmetic wraps around.
abbrev pub u64 : ℕ
u64 = 18446744073709551616

abbrev pub wrap : ℕ → ℕ
wrap n = n % u64

-- strconv.ParseUint(f, 10, 64)
unfoldable pub parse_uint : Text → Result ℕ
parse_uint f = elim (read_number f) [
  | none ↦ err bad_counter
  | some n ↦ if ltb n u64 then ok n else err bad_counter
]

unfoldable pub parse_uints : List Text → Result (List ℕ)
parse_uints [] = ok []
parse_uints (f ∷ fs) = parse_uint f >>= λ n. parse_uints fs >>= λ ns. ok (n ∷ ns)

unfoldable pub nth : List ℕ → ℕ → ℕ
nth [] i = 0
nth (n ∷ ns) zero = n
nth (n ∷ ns) (suc i) = nth ns i

-- The sum of all values but those at the indices 8 and 9.
unfoldable pub total_from : ℕ → List ℕ → ℕ
total_from i [] = 0
total_from i (n ∷ ns) =
    let rest = total_from (i + 1) ns in if i == 8 || i == 9 then rest else wrap (n + rest)

-- idle and total of the aggregate line's values
unfoldable pub host_counters : List ℕ → ℕ × ℕ
host_counters vals = (wrap (nth vals 3 + nth vals 4), total_from 0 vals)

unfoldable pub is_cpu_line : List Text → Bool
is_cpu_line [] = false
is_cpu_line (f ∷ fs) = if ltb (length (f ∷ fs)) 8 then false else f == t "cpu"

unfoldable pub rest_of : List Text → List Text
rest_of [] = []
rest_of (f ∷ fs) = fs

unfoldable pub proc_stat_lines : List Text → Result (ℕ × ℕ)
proc_stat_lines [] = err bad_counter
proc_stat_lines (l ∷ ls) =
    let later = proc_stat_lines ls in
    if is_cpu_line (fields l)
    then (parse_uints (rest_of (fields l)) >>= λ vals. ok (host_counters vals))
    else later

unfoldable pub parse_proc_stat : Text → Result (ℕ × ℕ)
parse_proc_stat text = proc_stat_lines (split_on b'\n' text)

-- strings.TrimSuffix(f, ":")
unfoldable pub without_colon : Text → Text
without_colon f = elim (cut_suffix (t ":") f) [ none ↦ f | some front ↦ front ]

pub record MemFields : Type 0 where
  pub total_kb : Option ℕ
  pub avail_kb : Option ℕ

-- One line: the last MemTotal and MemAvailable count.
unfoldable pub mem_line : List Text → MemFields → Result MemFields
mem_line [] m = ok m
mem_line (name ∷ []) m = ok m
mem_line (name ∷ value ∷ more) m =
    if without_colon name == t "MemTotal"
    then (parse_uint value >>= λ v. ok (record m { total_kb = some v }))
    else if without_colon name == t "MemAvailable"
    then (parse_uint value >>= λ v. ok (record m { avail_kb = some v }))
    else ok m

unfoldable pub mem_lines : List Text → MemFields → Result MemFields
mem_lines [] m = ok m
mem_lines (l ∷ ls) m = mem_line (fields l) m >>= mem_lines ls

-- used and total in bytes, of kilobytes
unfoldable pub mem_bytes : ℕ → ℕ → ℕ × ℕ
mem_bytes total_kb avail_kb =
    let avail = if ltb total_kb avail_kb then total_kb else avail_kb in
    (wrap ((total_kb - avail) * 1024), wrap (total_kb * 1024))

unfoldable pub mem_result : Option ℕ → Option ℕ → Result (ℕ × ℕ)
mem_result none avail = err bad_counter
mem_result (some total) none = err bad_counter
mem_result (some total) (some avail) = ok (mem_bytes total avail)

unfoldable pub parse_mem_info : Text → Result (ℕ × ℕ)
parse_mem_info text =
    mem_lines (split_on b'\n' text) (record { total_kb = none; avail_kb = none }) >>= λ m.
    mem_result m.total_kb m.avail_kb

-- The first field, as strconv.ParseFloat reads it: `accepts` says that it does, `whole` gives the
-- number's whole part.
unfoldable pub parse_load_avg : (Text → Bool) → Text → Result Text
parse_load_avg accepts text = elim (fields text) [
  | [] ↦ err bad_counter
  | f ∷ fs ↦ if accepts f then ok f else err bad_counter
]

unfoldable pub parse_uptime : (Text → Option ℕ) → Text → Result ℕ
parse_uptime whole text = elim (fields text) [
  | [] ↦ err bad_counter
  | f ∷ fs ↦ from_option bad_counter (whole f)
]

-- What follows the last ')'.
unfoldable pub after_paren : Text → Option Text
after_paren [] = none
after_paren (c ∷ s) = elim (after_paren s) [
  | some rest ↦ some rest
  | none ↦ if c == b')' then some s else none
]

unfoldable pub field : List Text → ℕ → Text
field [] i = []
field (f ∷ fs) zero = f
field (f ∷ fs) (suc i) = field fs i

-- utime and stime are the fields 11 and 12 after the command's name.
unfoldable pub pid_stat_fields : List Text → Result ℕ
pid_stat_fields rest =
    if ltb (length rest) 13
    then err bad_counter
    else (parse_uint (field rest 11) >>= λ utime.
        parse_uint (field rest 12) >>= λ stime. ok (wrap (utime + stime)))

unfoldable pub parse_pid_stat : Text → Result ℕ
parse_pid_stat text = elim (after_paren text) [
  | none ↦ err bad_counter
  | some rest ↦ pid_stat_fields (fields rest)
]

unfoldable pub rss_line : List Text → Option Text
rss_line [] = none
rss_line (name ∷ []) = none
rss_line (name ∷ value ∷ more) = if name == t "VmRSS:" then some value else none

unfoldable pub pid_status_lines : List Text → Result ℕ
pid_status_lines [] = ok 0
pid_status_lines (l ∷ ls) =
    let later = pid_status_lines ls in
    elim (rss_line (fields l)) [
      | none ↦ later
      | some value ↦ parse_uint value >>= λ kb. ok (wrap (kb * 1024))
    ]

unfoldable pub parse_pid_status : Text → Result ℕ
parse_pid_status text = pid_status_lines (split_on b'\n' text)

-- ===== src/Metrics/Parse/Comm.antt =====
-- The name of a process in /proc/<pid>/stat, which may hold spaces and parentheses, and the parser of
-- internal/metrics/metrics.go.
use oakberryio.Prelude.{
  ◌≡◌, refl, Bool, true, false, none, some, [], ◌∷◌, ◌++◌, arith, Text, ◌==◌, nat_eq, if◌then◌else◌,
}
use oakberryio.Text.Trim.{fields}
use oakberryio.Metrics.Parse.{after_paren, pid_stat_fields, parse_pid_stat}

unfoldable pub has_paren : Text → Bool
has_paren [] = false
has_paren (c ∷ s) = let rest = has_paren s in if c == b')' then true else rest

after_paren-none : (s : Text) → has_paren s ≡ false → after_paren s ≡ none
unfolding has_paren after_paren
after_paren-none [] h = refl
after_paren-none (c ∷ s) h = ground (arith, after_paren-none s)

after_paren-append :
    (front rest : Text) → has_paren rest ≡ false → after_paren (front ++ b')' ∷ rest) ≡ some rest
unfolding after_paren
after_paren-append [] rest h = rw (after_paren-none rest h) (ground arith)
after_paren-append (c ∷ front) rest h = rw (after_paren-append front rest h) refl

-- Whatever stands in front of the last parenthesis, the name of the process included: the ticks are
-- those of the fields behind it.
pub parse_pid_stat_comm :
    (front rest : Text)
    → has_paren rest ≡ false
    → parse_pid_stat (front ++ b')' ∷ rest) ≡ pid_stat_fields (fields rest)
unfolding parse_pid_stat
parse_pid_stat_comm front rest h = rw (after_paren-append front rest h, parse_pid_stat) refl

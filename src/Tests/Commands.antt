-- ===== src/Tests/Commands.antt =====
-- Runs of the command line's parsers and of its reading of streams, and of a tar.
use oakberryio.Prelude.{
  ◌≡◌, refl, arith, ℕ, none, true, false, List, [], ◌∷◌, ◌++◌, Text, t, nat_eq, text_eq,
}
use oakberryio.Prelude.Int.{negsuc}
use oakberryio.Prelude.Results.{ok}
use oakberryio.Text.Decimal.{itoa}
use oakberryio.Paths.{is_abs}
use oakberryio.Deploy.GuestEnv.{has_prefix}
use oakberryio.Cli.Args.{parse_memory_mb}
use oakberryio.Cli.Args.Memory.{parse_memory_mb-overflows}
use oakberryio.Cli.Lines.{IsLine, has_newline, drop_cr}
use oakberryio.Cli.Stream.{follow, sent, error_text, follow-log_tail}
use oakberryio.Extract.{Entry, symlink, regular, FileSystem, extract_build_context}
use oakberryio.Extract.Inside.{Tidy, extract_build_context-Tidy}

parse_memory_mb-overflows_example :
    (v : ℕ) × (parse_memory_mb (itoa 9007199254740992 ++ t "gb") ≡ ok (negsuc v))
parse_memory_mb-overflows_example =
    parse_memory_mb-overflows 9007199254740992 (omega arith) (omega arith)

waiting_IsLine : IsLine (t "starting machine...")
unfolding has_newline nat_eq
waiting_IsLine = record { whole = refl; fits = omega arith }

error_IsLine : IsLine (t "error: deploy: health check timed out")
unfolding has_newline nat_eq
error_IsLine = record { whole = refl; fits = omega arith }

ok_IsLine : IsLine (t "ok 010203040506")
unfolding has_newline nat_eq
ok_IsLine = record { whole = refl; fits = omega arith }

header_IsLine : IsLine (t "--- last 50 lines of /var/log/oak/web/aa.log ---")
unfolding has_newline nat_eq
header_IsLine = record { whole = refl; fits = omega arith }

panic_IsLine : IsLine (t "panic: no database")
unfolding has_newline nat_eq
panic_IsLine = record { whole = refl; fits = omega arith }

abbrev progress : List Text
progress = t "starting machine..." ∷ []

no_error_word : has_prefix (t "error:") (drop_cr (t "panic: no database")) ≡ false
unfolding has_prefix drop_cr nat_eq
no_error_word = refl

follow-log_tail_example :
    (follow (
      sent progress
        (error_text
          (t "deploy: health check timed out")
          (t "--- last 50 lines of /var/log/oak/web/aa.log ---" ∷ t "panic: no database" ∷ []))
        false)).outcome
    ≡ ok tt
follow-log_tail_example =
    follow-log_tail progress (waiting_IsLine, tt) (t "deploy: health check timed out")
      (t "--- last 50 lines of /var/log/oak/web/aa.log ---" ∷ []) (t "panic: no database")
      (error_IsLine, (header_IsLine, (panic_IsLine, tt))) no_error_word

-- A tar with a link, and a file whose name goes through it.
abbrev tar : List Entry
tar =
    record { name = t "link"; kind = symlink (t "/etc") }
    ∷ record { name = t "link/passwd"; kind = regular (t "root") }
    ∷ []

abbrev disk : FileSystem
disk = record { works = λ op. true; names = λ path. none }

root_is_abs : is_abs (t "/d/build-tmp/1") ≡ true
unfolding is_abs nat_eq
root_is_abs = refl

extract_build_context-Tidy_example :
    Tidy (t "/d/build-tmp/1") (extract_build_context disk (t "/d/build-tmp/1") false tar []).1
extract_build_context-Tidy_example =
    extract_build_context-Tidy disk (t "/d/build-tmp/1") false tar root_is_abs

-- ===== src/Cli/Stream.antt =====
-- What internal/cli/client.go makes of a stream of progress lines: streamOutcome, and the loops of
-- streamProgress, Deploy and BuildRemote over bufio.Scanner.
use oakberryio.Prelude.{
  Bool, refl, sym, ◌∙◌, false, none, some, ◌≡◌, List, [], ◌∷◌, ◌++◌, map, arith, Text, t, nat_eq,
  text_eq, if◌then◌else◌, All,
}
use mathlib.Core.List.{append_assoc, map-append}
use oakberryio.Prelude.Results.{Result, ok, err, read_failed, remote_failed, unexpected_line}
use oakberryio.Text.Trim.{cut_prefix}
use oakberryio.Deploy.GuestEnv.{has_prefix}
use oakberryio.Wire.{Body}
use oakberryio.Table.Laws.{All-append}
use oakberryio.Cli.Lines.{newline, drop_cr, scan, unlines, IsLine, scan-unlines}

unfoldable pub last_line : List Text → Text
last_line [] = t ""
last_line (l ∷ []) = l
last_line (l ∷ m ∷ ls) = last_line (m ∷ ls)

unfoldable pub stream_outcome : Text → Bool → Result (Unit {0})
stream_outcome last failed =
    if has_prefix (t "ok ") last
    then ok tt
    else if failed
    then err read_failed
    else if has_prefix (t "error:") last
    then err remote_failed
    else ok tt

-- The lines that are printed, and the outcome.
pub record Followed (A : Type 0) : Type 0 where
  pub printed : List Text
  pub outcome : Result A

unfoldable pub follow : Body → Followed (Unit {0})
follow body =
    let s = scan body in
    record { printed = s.lines; outcome = stream_outcome (last_line s.lines) s.failed }

-- BuildRemote: the reference of the image that was built.
unfoldable pub build_outcome : Text → Bool → Result Text
build_outcome last failed =
    if failed
    then err read_failed
    else if has_prefix (t "error:") last
    then err remote_failed
    else elim (cut_prefix (t "image ") last) [ none ↦ err unexpected_line | some image ↦ ok image ]

unfoldable pub follow_build : Body → Followed Text
follow_build body =
    let s = scan body in
    record { printed = s.lines; outcome = build_outcome (last_line s.lines) s.failed }

-- fmt.Sprintf("error: %v\n", err), of an error whose message has these lines
unfoldable pub error_text : Text → List Text → Text
error_text first more = unlines ((t "error: " ++ first) ∷ more)

-- A body of progress lines and this text.
abbrev pub sent : List Text → Text → Bool → Body
sent progress text broken = record { bytes = unlines progress ++ text; broken = broken }

last_line-append :
    (ls : List Text) (m : Text) (ms : List Text) → last_line (ls ++ m ∷ ms) ≡ last_line (m ∷ ms)
unfolding last_line
last_line-append [] m ms = refl
last_line-append (l ∷ []) m ms = refl
last_line-append (l ∷ k ∷ ls) m ms = last_line-append (k ∷ ls) m ms

pub unlines-append : (ls ms : List Text) → unlines (ls ++ ms) ≡ unlines ls ++ unlines ms
unfolding unlines
unlines-append [] ms = refl
unlines-append (l ∷ ls) ms =
    rw (unlines-append ls ms) (sym (append_assoc l (newline ∷ unlines ls) (unlines ms)))

-- After progress lines, the outcome is that of the last line alone.
follow-progress :
    (broken : Bool) (progress : List Text) (m : Text) (ms : List Text)
    → All IsLine progress
    → All IsLine (m ∷ ms)
    → (follow (sent progress (unlines (m ∷ ms)) broken)).outcome
      ≡ stream_outcome (last_line (map drop_cr (m ∷ ms))) broken
unfolding follow
follow-progress broken progress m ms h k = rw (← unlines-append progress (m ∷ ms)) (
    rw (scan-unlines broken (progress ++ m ∷ ms) (All-append IsLine progress (m ∷ ms) h k)) (
      rw (map-append drop_cr progress (m ∷ ms))
        (rw (last_line-append (map drop_cr progress) (drop_cr m) (map drop_cr ms)) refl)))

pub stream_outcome-calm :
    (last : Text) → has_prefix (t "error:") last ≡ false → stream_outcome last false ≡ ok tt
unfolding stream_outcome
stream_outcome-calm last e = ground arith

module _ (progress : List Text) (h : All IsLine progress) where
  pub follow-error_text :
      (message : Text)
      → IsLine (t "error: " ++ message)
      → (follow (sent progress (error_text message []) false)).outcome ≡ err remote_failed
  unfolding error_text stream_outcome last_line has_prefix drop_cr nat_eq
  follow-error_text message k = follow-progress false progress (t "error: " ++ message) [] h (k, tt)

  follow-ok :
      (broken : Bool) (id : Text)
      → IsLine (t "ok " ++ id)
      → (follow (sent progress (unlines ((t "ok " ++ id) ∷ [])) broken)).outcome ≡ ok tt
  unfolding stream_outcome last_line has_prefix drop_cr nat_eq
  follow-ok broken [] k = follow-progress broken progress (t "ok ") [] h (k, tt)
  follow-ok broken (c ∷ id) k = follow-progress broken progress (t "ok " ++ c ∷ id) [] h (k, tt)

  -- After progress lines, a final line "error: <message>" makes the command fail, and a final line
  -- "ok <machine-id>" makes it succeed, also where an error of the connection follows that line.
  pub follow-final_line :
      (broken : Bool) (message id : Text)
      → IsLine (t "error: " ++ message)
      → IsLine (t "ok " ++ id)
      → ((follow (sent progress (error_text message []) false)).outcome ≡ err remote_failed)
        × ((follow (sent progress (unlines ((t "ok " ++ id) ∷ [])) broken)).outcome ≡ ok tt)
  follow-final_line broken message id k l = (follow-error_text message k, follow-ok broken id l)

  -- An error whose message ends in the tail of a log is taken for a success, unless the log's last
  -- line begins with "error:" itself.
  pub follow-log_tail :
      (message : Text) (log : List Text) (last : Text)
      → All IsLine ((t "error: " ++ message) ∷ (log ++ last ∷ []))
      → has_prefix (t "error:") (drop_cr last) ≡ false
      → (follow (sent progress (error_text message (log ++ last ∷ [])) false)).outcome ≡ ok tt
  unfolding error_text
  follow-log_tail message log last k e =
      follow-progress false progress (t "error: " ++ message) (log ++ last ∷ []) h k
      ∙ rw (map-append drop_cr log (last ∷ [])) (
          rw
            (last_line-append (drop_cr (t "error: " ++ message) ∷ map drop_cr log) (drop_cr last)
              [])
            (unfold last_line in stream_outcome-calm (drop_cr last) e))

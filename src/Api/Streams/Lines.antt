-- ===== src/Api/Streams/Lines.antt =====
-- The lines that internal/daemon/deploy.go reports, each by the rule for its emit.
use oakberryio.Prelude.{
  ◌≡◌, ◌∙◌, refl, subst, arith, ℕ, ◌<◌, false, List, [], ◌∷◌, ◌++◌, Text, t, nat_eq, text_eq,
  length, length-append,
}
use mathlib.Core.List.{append_assoc}
use oakberryio.Text.Decimal.{itoa}
use oakberryio.Appconfig.{Service}
use oakberryio.Effects.Keeps.{Keeps, Keeps-pure}
use oakberryio.Cli.Lines.{newline, drop_cr, has_newline, IsLine}
use oakberryio.Deploy.GuestEnv.{has_prefix}
use oakberryio.Deploy.State.{emit}
use oakberryio.Deploy.Health.{beat_line}
use oakberryio.Deploy.Boot.{announce_wait}
use oakberryio.Api.Streams.Quiet.{IsQuiet, IsTidy, Keeps-line, has_newline-append, tens, itoa-line}

-- Each constant line is quiet by computation.
IsQuiet-building : IsQuiet (t "building rootfs...")
unfolding has_newline has_prefix drop_cr nat_eq
IsQuiet-building = record { line = record { whole = refl; fits = omega arith }; calm = refl }

IsQuiet-starting : IsQuiet (t "starting machine...")
unfolding has_newline has_prefix drop_cr nat_eq
IsQuiet-starting = record { line = record { whole = refl; fits = omega arith }; calm = refl }

IsQuiet-waiting : IsQuiet (t "waiting for health check...")
unfolding has_newline has_prefix drop_cr nat_eq
IsQuiet-waiting = record { line = record { whole = refl; fits = omega arith }; calm = refl }

IsQuiet-running : IsQuiet (t "running release command...")
unfolding has_newline has_prefix drop_cr nat_eq
IsQuiet-running = record { line = record { whole = refl; fits = omega arith }; calm = refl }

IsQuiet-succeeded : IsQuiet (t "release command succeeded")
unfolding has_newline has_prefix drop_cr nat_eq
IsQuiet-succeeded = record { line = record { whole = refl; fits = omega arith }; calm = refl }

pub Keeps-building : Keeps IsTidy (emit (t "building rootfs..." ++ newline ∷ []))
Keeps-building = Keeps-line _ IsQuiet-building

pub Keeps-starting : Keeps IsTidy (emit (t "starting machine..." ++ newline ∷ []))
Keeps-starting = Keeps-line _ IsQuiet-starting

pub Keeps-running : Keeps IsTidy (emit (t "running release command..." ++ newline ∷ []))
Keeps-running = Keeps-line _ IsQuiet-running

pub Keeps-succeeded : Keeps IsTidy (emit (t "release command succeeded" ++ newline ∷ []))
Keeps-succeeded = Keeps-line _ IsQuiet-succeeded

pub Keeps-announce_wait : (ss : List Service) → Keeps IsTidy (announce_wait ss)
unfolding announce_wait
Keeps-announce_wait [] = Keeps-pure tt
Keeps-announce_wait (s ∷ ss) = Keeps-line _ IsQuiet-waiting

-- What has no newline and is short makes a quiet line behind "ok ".
IsQuiet-ok : (id : Text) → has_newline id ≡ false → length id ≡ 12 → IsQuiet (t "ok " ++ id)
unfolding has_newline has_prefix drop_cr nat_eq
IsQuiet-ok [] h k = cc
IsQuiet-ok (c ∷ id) h k = record { line = record { whole = h; fits = omega arith }; calm = refl }

pub Keeps-ok :
    (id : Text)
    → has_newline id ≡ false
    → length id ≡ 12
    → Keeps IsTidy (emit (t "ok " ++ (id ++ newline ∷ [])))
Keeps-ok id h k = Keeps-line (t "ok " ++ id) (IsQuiet-ok id h k)

-- The line of a failed restart of cloudflared, with the words of its error
abbrev pub warning : Text → Text
warning why = t "tunnel restart failed: " ++ (why ++ t "; deploy is live")

IsQuiet-warning : (why : Text) → IsLine (warning why) → IsQuiet (warning why)
unfolding has_prefix drop_cr nat_eq
IsQuiet-warning why h = record { line = h; calm = refl }

pub Keeps-warning :
    (why : Text)
    → IsLine (warning why)
    → Keeps IsTidy
        (emit (t "tunnel restart failed: " ++ (why ++ (t "; deploy is live" ++ newline ∷ []))))
Keeps-warning why h =
    subst (λ (s : Text). Keeps IsTidy (emit (t "tunnel restart failed: " ++ s)))
      (append_assoc why (t "; deploy is live") (newline ∷ []))
      (Keeps-line (warning why) (IsQuiet-warning why h))

beat : ℕ → Text
beat secs = t "still waiting for health check (" ++ (itoa secs ++ t "s)...")

IsQuiet-beat : (secs : ℕ) → secs < tens 9 → IsQuiet (beat secs)
unfolding beat has_newline has_prefix drop_cr nat_eq
IsQuiet-beat secs h = record {
  line = record {
    whole = has_newline-append (itoa secs) (t "s)...") ∙ rw (itoa-line 9 secs h).0 refl;
    fits = omega (arith, (itoa-line 9 secs h).1, length-append {0} (itoa secs) (t "s)..."));
  };
  calm = refl;
}

pub Keeps-beat : (secs : ℕ) → secs < tens 9 → Keeps IsTidy (emit (beat_line secs))
unfolding beat_line beat
Keeps-beat secs h =
    subst (λ (s : Text). Keeps IsTidy (emit (t "still waiting for health check (" ++ s)))
      (append_assoc (itoa secs) (t "s)...") (newline ∷ []))
      (Keeps-line (beat secs) (IsQuiet-beat secs h))

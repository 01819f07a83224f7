-- ===== src/Api/Streams/Quiet.antt =====
-- The progress lines of internal/daemon/deploy.go: each is a line, and none begins with "error:".
use oakberryio.Prelude.{
  ◌≡◌, ◌∙◌, ap, refl, sym, subst, arith, ℕ, zero, suc, ◌+◌, ◌*◌, ◌/◌, ◌%◌, ◌<◌, ◌≤◌, false, ◌||◌,
  List, [], ◌∷◌, ◌++◌, Text, t, ◌==◌, nat_eq, text_eq, length, length-append, All, Bool-cases, inl,
  inr, ltb,
}
use oakberryio.Table.Laws.{All-append}
use oakberryio.Text.Decimal.{itoa, itoa_small, itoa_large}
use oakberryio.Vm.{hex2, hex_digit}
use oakberryio.Effects.{Exec}
use oakberryio.Effects.Keeps.{Keeps, Keeps-modify}
use oakberryio.Cli.Lines.{newline, drop_cr, unlines, has_newline, IsLine}
use oakberryio.Cli.Stream.{unlines-append}
use oakberryio.Deploy.GuestEnv.{has_prefix}
use oakberryio.Deploy.{World, emitted}
use oakberryio.Deploy.State.{hex, record_effect, emit}
use oakberryio.Api.Streams.{emitted_text}

pub record IsQuiet (l : Text) : Type 0 where
  pub line : IsLine l
  pub calm : has_prefix (t "error:") (drop_cr l) ≡ false

-- The client has been sent quiet lines, and crypto/rand gives six bytes at each call.
pub record IsTidy (w : World) : Type 0 where
  pub lines : List Text
  pub said : emitted_text w.trace ≡ unlines lines
  pub quiet : All IsQuiet lines
  pub ids : All (λ (bytes : List ℕ). length bytes ≡ 6) w.random

pub has_newline-append : (s r : Text) → has_newline (s ++ r) ≡ (has_newline s || has_newline r)
unfolding has_newline
has_newline-append [] r = refl
has_newline-append (c ∷ s) r = ground (arith, has_newline-append s r)

-- A line whose first byte is no 'e'
calm_start :
    (c d : ℕ) (s : Text)
    → (c == b'e') ≡ false
    → has_prefix (t "error:") (drop_cr (c ∷ d ∷ s)) ≡ false
unfolding has_prefix drop_cr
calm_start c d s h = ground arith

pub hex-line :
    (bytes : List ℕ) → (has_newline (hex bytes) ≡ false) × (length (hex bytes) ≡ 2 * length bytes)
unfolding hex hex2 hex_digit has_newline
hex-line [] = (refl, refl)
hex-line (b ∷ bs) = ground (arith, hex-line bs)

unfoldable pub tens : ℕ → ℕ
tens zero = 10
tens (suc k) = 10 * tens k

pub itoa-line : (k n : ℕ) → n < tens k → (has_newline (itoa n) ≡ false) × (length (itoa n) ≤ suc k)
unfolding tens has_newline
itoa-line zero n h = rw (itoa_small n h) (ground arith, omega arith)
itoa-line (suc k) n h = elim (Bool-cases (ltb n 10)) [
  | inl small ↦ rw (itoa_small n (ground arith)) (ground arith, omega arith)
  | inr large ↦
      let (whole, short) = itoa-line k (n / 10) (omega arith) in
      rw (itoa_large n (ground arith)) (
        has_newline-append (itoa (n / 10)) ((48 + n % 10) ∷ []) ∙ ground arith,
        omega (arith, length-append {0} (itoa (n / 10)) ((48 + n % 10) ∷ []), short),
      )
]

emitted-IsTidy :
    (l : Text) (w : World)
    → IsQuiet l
    → IsTidy w
    → IsTidy (record_effect (emitted (l ++ newline ∷ [])) w)
unfolding emitted_text record_effect unlines
emitted-IsTidy l w q k = record {
  lines = k.lines ++ l ∷ [];
  said = ap (λ (s : Text). s ++ (l ++ newline ∷ [])) k.said ∙ sym (unlines-append k.lines (l ∷ []));
  quiet = All-append IsQuiet k.lines (l ∷ []) k.quiet (q, tt);
  ids = k.ids;
}

pub Keeps-line : (l : Text) → IsQuiet l → Keeps IsTidy (emit (l ++ newline ∷ []))
unfolding emit
Keeps-line l q = Keeps-modify _ (λ w k. emitted-IsTidy l w q k)

-- Actions that send nothing.
pub Keeps-still :
    {A : Type 0} (act : Exec World A)
    → ((w : World) → emitted_text (act w).1.trace ≡ emitted_text w.trace)
    → ((w : World) → (act w).1.random ≡ w.random)
    → Keeps IsTidy act
Keeps-still act same ids = record {
  at = λ w k. record {
    lines = k.lines;
    said = same w ∙ k.said;
    quiet = k.quiet;
    ids = subst (All (λ (bytes : List ℕ). length bytes ≡ 6)) (sym (ids w)) k.ids;
  };
}

-- Steps that send nothing.
pub IsTidy-still :
    (v w : World)
    → emitted_text v.trace ≡ emitted_text w.trace
    → v.random ≡ w.random
    → IsTidy w
    → IsTidy v
IsTidy-still v w same ids k = record {
  lines = k.lines;
  said = same ∙ k.said;
  quiet = k.quiet;
  ids = subst (All (λ (bytes : List ℕ). length bytes ≡ 6)) (sym ids) k.ids;
}

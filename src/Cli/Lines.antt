-- ===== src/Cli/Lines.antt =====
-- bufio.Scanner with its default split and buffer, as internal/cli/client.go reads a stream of
-- progress lines.
use oakberryio.Prelude.{
  ℕ, ◌<◌, Bool, true, false, ◌≡◌, refl, List, [], ◌∷◌, ◌++◌, map, arith, Text, ◌==◌, nat_eq,
  text_eq, if◌then◌else◌, leb, length, All, Bool-cases, inl, inr, ap,
}
use oakberryio.Paths.{split_on}
use oakberryio.Wire.{Body}

abbrev pub newline : ℕ
newline = 10

-- bufio.MaxScanTokenSize, which the newline must fit into
abbrev max_token : ℕ
max_token = 65536

too_long : Text → Bool
too_long line = leb max_token (length line)

-- dropCR: one carriage return at the end of the line
unfoldable pub drop_cr : Text → Text
drop_cr [] = []
drop_cr (c ∷ []) = if c == 13 then [] else c ∷ []
drop_cr (c ∷ d ∷ s) = c ∷ drop_cr (d ∷ s)

pub record Scan : Type 0 where
  pub lines : List Text
  -- scanner.Err() != nil
  pub failed : Bool

abbrev after : Text → Scan → Scan
after line rest = record rest { lines = line ∷ rest.lines }

-- The pieces between newlines. The last one counts where it is not empty, also before an error.
scan_pieces : Bool → List Text → Scan
scan_pieces broken [] = record { lines = []; failed = broken }
scan_pieces broken (last ∷ []) =
    if too_long last
    then record { lines = []; failed = true }
    else if last == []
    then record { lines = []; failed = broken }
    else record { lines = drop_cr last ∷ []; failed = broken }
scan_pieces broken (line ∷ next ∷ more) =
    let rest = scan_pieces broken (next ∷ more) in
    if too_long line then record { lines = []; failed = true } else after (drop_cr line) rest

unfoldable pub scan : Body → Scan
unfolding scan_pieces too_long drop_cr split_on
scan body = scan_pieces body.broken (split_on newline body.bytes)

-- The text of lines that each end in a newline.
unfoldable pub unlines : List Text → Text
unlines [] = []
unlines (l ∷ ls) = l ++ newline ∷ unlines ls

unfoldable pub has_newline : Text → Bool
has_newline [] = false
has_newline (c ∷ s) = let rest = has_newline s in if c == newline then true else rest

pub record IsLine (l : Text) : Type 0 where
  pub whole : has_newline l ≡ false
  pub fits : length l < max_token

split_on-cons :
    (sep : ℕ) (s : Text) → (first : Text) × (rest : List Text) × (split_on sep s ≡ first ∷ rest)
unfolding split_on
split_on-cons sep [] = ([], [], refl)
split_on-cons sep (c ∷ s) = elim (Bool-cases (c == sep)) [
  | inl e ↦ let (p, ps, h) = split_on-cons sep s in ([], p ∷ ps, rw (h, e) refl)
  | inr e ↦ let (p, ps, h) = split_on-cons sep s in (c ∷ p, ps, rw (h, e) refl)
]

split_on-line :
    (l s : Text)
    → has_newline l ≡ false
    → split_on newline (l ++ newline ∷ s) ≡ l ∷ split_on newline s
unfolding split_on has_newline
split_on-line [] s h = let (p, ps, e) = split_on-cons newline s in ground (arith, e)
split_on-line (c ∷ l) s h = ground (arith, split_on-line l s)

scan_pieces-line :
    (broken : Bool) (l s : Text)
    → IsLine l
    → scan_pieces broken (l ∷ split_on newline s)
      ≡ after (drop_cr l) (scan_pieces broken (split_on newline s))
unfolding scan_pieces too_long
scan_pieces-line broken l s h =
    let (p, ps, e) = split_on-cons newline s in let fits = h.fits in rw e (ground arith)

scan_pieces-unlines :
    (broken : Bool) (ls : List Text)
    → All IsLine ls
    → scan_pieces broken (split_on newline (unlines ls))
      ≡ record { lines = map drop_cr ls; failed = broken }
unfolding unlines
scan_pieces-unlines broken [] h = unfold scan_pieces split_on too_long text_eq in refl
scan_pieces-unlines broken (l ∷ ls) (h, hs) = rw (split_on-line l (unlines ls) h.whole) (
    rw (scan_pieces-line broken l (unlines ls) h)
      (ap (after (drop_cr l)) (scan_pieces-unlines broken ls hs)))

-- Short lines that each end in a newline are read back, less a carriage return at their ends.
pub scan-unlines :
    (broken : Bool) (ls : List Text)
    → All IsLine ls
    → scan (record { bytes = unlines ls; broken = broken })
      ≡ record { lines = map drop_cr ls; failed = broken }
unfolding scan
scan-unlines broken ls h = scan_pieces-unlines broken ls h

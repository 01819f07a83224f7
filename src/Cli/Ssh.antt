-- ===== src/Cli/Ssh.antt =====
-- Client.SSH of internal/cli/client.go: the request that it writes by hand, and the reading of the
-- response's head, after which the connection belongs to the caller.
use oakberryio.Prelude.{
  ℕ, zero, suc, ◌<◌, Bool, true, false, ◌≡◌, refl, Option, none, some, List, [], ◌∷◌, ◌++◌, arith,
  Text, t, ◌==◌, nat_eq, text_eq, if◌then◌else◌, length, length-append, All,
}
use mathlib.Core.List.{append_assoc}
use oakberryio.Prelude.Results.{Result, ok, err, read_failed, bad_status}
use oakberryio.Text.Trim.{trim_space, fields}
use oakberryio.Cli.Lines.{newline, unlines, has_newline}
use oakberryio.Cli.Transport.{Surroundings}

abbrev crlf : Text
crlf = 13 ∷ newline ∷ []

abbrev header : Text → Text → Text
header name value = name ++ (t ": " ++ (value ++ crlf))

unfoldable pub token_header : Text → Text
token_header token =
    if token == t "" then t "" else header (t "Authorization") (t "Bearer " ++ token)

-- `host` is the base URL's host, or "unix".
unfoldable pub ssh_request : Surroundings → Text → Text → Text → Text
unfolding token_header
ssh_request here host token app =
    t "POST /apps/"
    ++ (here.path_escape app ++ (t "/ssh HTTP/1.1" ++ crlf))
    ++ (header (t "Host") host
        ++ (token_header token ++ (header (t "Content-Length") (t "0") ++ crlf)))

-- reader.ReadString('\n'): the line, here without its newline, and what is left to read.
unfoldable pub read_line : Text → Option (Text × Text)
read_line [] = none
read_line (c ∷ s) =
    let rest = read_line s in
    if c == newline
    then some ([], s)
    else elim rest [ none ↦ none | some (line, left) ↦ some (c ∷ line, left) ]

abbrev pub or_fail : {A : Type 0} → Option (Text × Text) → (Text → Text → Result A) → Result A
or_fail none next = err read_failed
or_fail (some (line, left)) next = next line left

-- The loop over the headers, up to a blank line; every round takes a line of the input.
unfoldable pub skip_headers : ℕ → Text → Result Text
skip_headers zero input = err read_failed
skip_headers (suc f) input =
    or_fail (read_line input) λ line left.
      let rest = skip_headers f left in if trim_space line == t "" then ok left else rest

-- fields[1] == "200"
unfoldable pub says_ok : List Text → Bool
says_ok [] = false
says_ok (f ∷ []) = false
says_ok (f ∷ g ∷ fs) = g == t "200"

-- What the caller reads first from the connection that SSH returns.
unfoldable pub open_stream : Text → Result Text
open_stream input = or_fail (read_line input) λ status left.
    if says_ok (fields status) then skip_headers (suc (length left)) left else err bad_status

read_line-line : (l s : Text) → has_newline l ≡ false → read_line (l ++ newline ∷ s) ≡ some (l, s)
unfolding read_line has_newline
read_line-line [] s h = ground arith
read_line-line (c ∷ l) s h = ground (arith, read_line-line l s)

-- A header line: no newline in it, and something but white space.
pub record IsHeader (l : Text) : Type 0 where
  pub whole : has_newline l ≡ false
  pub filled : (trim_space l == []) ≡ false

-- the blank line, as the server ends it, and what follows
abbrev pub body_after : Text → Text
body_after left = 13 ∷ newline ∷ left

skip_headers-headers :
    (f : ℕ) (hs : List Text) (left : Text)
    → All IsHeader hs
    → length hs < f
    → skip_headers f (unlines hs ++ body_after left) ≡ ok left
unfolding skip_headers unlines
skip_headers-headers zero hs left h k = elim k [ ]
skip_headers-headers (suc f) [] left h k = unfold read_line trim_space text_eq nat_eq in refl
skip_headers-headers (suc f) (l ∷ hs) left (h, hs') k =
    rw (append_assoc l (newline ∷ unlines hs) (body_after left)) (
      rw (read_line-line l (unlines hs ++ body_after left) h.whole)
        (rw h.filled (skip_headers-headers f hs left hs' (omega arith))))

length-unlines : (hs : List Text) (s : Text) → length hs < suc (length (unlines hs ++ s))
unfolding unlines
length-unlines [] s = omega arith
length-unlines (l ∷ hs) s =
    rw (append_assoc l (newline ∷ unlines hs) s)
      (omega (arith, length-append l (newline ∷ (unlines hs ++ s)), length-unlines hs s))

-- After a status line of 200, any header lines and the blank line, every further byte that the
-- server sent is left for the caller, those that were read together with the headers included.
pub open_stream-head :
    (status : Text) (hs : List Text) (left : Text)
    → has_newline status ≡ false
    → says_ok (fields status) ≡ true
    → All IsHeader hs
    → open_stream (unlines (status ∷ hs) ++ body_after left) ≡ ok left
unfolding open_stream unlines
open_stream-head status hs left whole fine h =
    rw (append_assoc status (newline ∷ unlines hs) (body_after left)) (
      rw (read_line-line status (unlines hs ++ body_after left) whole) (
        rw fine (
          skip_headers-headers (suc (length (unlines hs ++ body_after left))) hs left h
            (length-unlines hs (body_after left)))))

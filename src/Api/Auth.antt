-- ===== src/Api/Auth.antt =====
-- AuthMiddleware of internal/daemon/api.go, around the handlers of the TCP listener.
use oakberryio.Prelude.{
  Bool, true, false, ◌&&◌, ◌||◌, ◌≡◌, ◌≢◌, refl, none, some, [], ◌∷◌, ◌++◌, arith, Text, t, ◌==◌,
  text_eq, if◌then◌else◌, Bool-cases, Option-cases, ap, ◌∙◌, inl, inr, ==_iff, ==_refl,
}
use oakberryio.Text.Trim.{cut_prefix, cut_prefix-append}
use oakberryio.Wire.{Method, get, Request}
use oakberryio.Deploy.{World}
use oakberryio.Cli.Transport.{authorization}
use oakberryio.Api.{Handler, refuse, unauthorized}

unfoldable pub is_get : Method → Bool
is_get get = true
is_get m = false

-- The pages that carry no data
unfoldable pub is_public : Request → Bool
is_public req =
    is_get req.method
    && (req.path == t "/dashboard"
        || req.path == t "/"
        || req.path == t "/install.sh"
        || req.path == t "/box.sh")

-- subtle.ConstantTimeCompare of the token with what follows "Bearer "
unfoldable pub bears : Text → Text → Bool
bears token header = elim (cut_prefix (t "Bearer ") header) [
  | none ↦ false
  | some given ↦ given == token
]

unfoldable pub auth_middleware : Text → (Request → Handler) → Request → Handler
auth_middleware token next req w =
    if is_public req
    then next req w
    else if bears token req.authorization
    then next req w
    else refuse unauthorized w

cut_prefix-inv : (p s : Text) {rest : Text} → cut_prefix p s ≡ some rest → s ≡ p ++ rest
unfolding cut_prefix
cut_prefix-inv [] s h = ground arith
cut_prefix-inv (c ∷ p) [] h = cc
cut_prefix-inv (c ∷ p) (d ∷ s) {rest = r} h = ground (arith, cut_prefix-inv p s {rest = r})

bears-inv : (token header : Text) → bears token header ≡ true → header ≡ t "Bearer " ++ token
unfolding bears
bears-inv token header h = elim (Option-cases (cut_prefix (t "Bearer ") header)) [
  | inl e ↦ ground (arith, e)
  | inr (given, e) ↦
      cut_prefix-inv (t "Bearer ") header e
      ∙ ap (λ (s : Text). t "Bearer " ++ s) ((==_iff given token).0 (rw (e, bears) at h))
]

bears-append : (token : Text) → bears token (t "Bearer " ++ token) ≡ true
unfolding bears
bears-append token = rw (cut_prefix-append (t "Bearer ") token, bears) (==_refl token)

-- Whatever the handlers do: a request for another page than the public ones, whose header is not
-- "Bearer " and the token, is answered with 401 and changes nothing.
pub auth_middleware-stranger :
    (token : Text) (next : Request → Handler) (req : Request) (w : World)
    → is_public req ≡ false
    → req.authorization ≢ t "Bearer " ++ token
    → auth_middleware token next req w ≡ refuse unauthorized w
unfolding auth_middleware
auth_middleware-stranger token next req w private stranger =
    rw private (elim (Bool-cases (bears token req.authorization)) [
      | inl e ↦ absurd (stranger (bears-inv token req.authorization e))
      | inr e ↦ rw e refl
    ])

-- The header that oak sends for a token that is set passes the check of an oakd with this token.
pub auth_middleware-authorization :
    (token : Text) (next : Request → Handler) (req : Request) (w : World)
    → (token == t "") ≡ false
    → req.authorization ≡ authorization token
    → auth_middleware token next req w ≡ next req w
unfolding auth_middleware authorization
auth_middleware-authorization token next req w filled sent =
    rw sent (rw filled (rw (bears-append token) (ground arith)))

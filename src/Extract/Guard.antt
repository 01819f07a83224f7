-- ===== src/Extract/Guard.antt =====
-- safeExtractPath of internal/daemon/build.go and safeJoin of internal/rootfs/flatten.go.
use oakberryio.Prelude.{
  ◌≡◌, ◌⊎◌, ap, subst, refl, arith, Bool, true, false, ◌||◌, ◌&&◌, not, List, [], ◌∷◌, ◌++◌, Text,
  t, ◌==◌, nat_eq, text_eq, if◌then◌else◌, All, Bool-cases, inl, inr, ==_iff,
}
use oakberryio.Prelude.Results.{Result, ok, err, escapes_dir}
use oakberryio.Paths.{
  clean, join, is_abs, push_piece, push_pieces, reverse_onto, split_on, join_with,
}
use oakberryio.Deploy.GuestEnv.{has_prefix}

-- target != cleanDir && !strings.HasPrefix(target, cleanDir+"/")
unfoldable pub is_outside : Text → Text → Bool
is_outside clean_dir target =
    not (target == clean_dir) && not (has_prefix (clean_dir ++ b'/' ∷ []) target)

unfoldable pub safe_join : Text → Text → Result Text
safe_join dir name =
    let target = join (clean dir) name in
    if is_outside (clean dir) target then err escapes_dir else ok target

unfoldable pub safe_extract_path : Text → Text → Result Text
safe_extract_path dir name =
    if is_abs name
    then err escapes_dir
    else if clean name == t ".." || has_prefix (t "../") (clean name)
    then err escapes_dir
    else safe_join dir (clean name)

-- A component that path.Clean leaves in an absolute path
abbrev pub Plain : Text → Type 0
Plain p = ((p == t "..") ≡ false) × ((p == t ".") ≡ false) × ((p == t "") ≡ false)

-- An absolute path with plain components alone
pub record IsPlainPath (path : Text) : Type 0 where
  pub pieces : List Text
  pub spelled : path ≡ b'/' ∷ join_with (t "/") pieces
  pub plain : All Plain pieces

push_piece-Plain :
    (kept : List Text) (p : Text) → All Plain kept → All Plain (push_piece true kept p)
unfolding push_piece
push_piece-Plain [] p h = elim (Bool-cases (p == t "")) [
  | inl a ↦ rw a tt
  | inr a ↦ rw a (elim (Bool-cases (p == t ".")) [
    | inl b ↦ rw b tt
    | inr b ↦
        rw b (elim (Bool-cases (p == t "..")) [ inl c ↦ rw c tt | inr c ↦ rw c (((c, b, a), tt)) ])
  ])
]
push_piece-Plain (q ∷ qs) p (hq, h) = elim (Bool-cases (p == t "")) [
  | inl a ↦ rw a (hq, h)
  | inr a ↦ rw a (elim (Bool-cases (p == t ".")) [
    | inl b ↦ rw b (hq, h)
    | inr b ↦ rw b (elim (Bool-cases (p == t "..")) [
      | inl c ↦ rw c (rw hq.0 h)
      | inr c ↦ rw c ((c, b, a), (hq, h))
    ])
  ])
]

push_pieces-Plain : (kept ps : List Text) → All Plain kept → All Plain (push_pieces true kept ps)
unfolding push_pieces
push_pieces-Plain kept [] h = h
push_pieces-Plain kept (p ∷ ps) h =
    push_pieces-Plain (push_piece true kept p) ps (push_piece-Plain kept p h)

reverse_onto-Plain :
    (xs ys : List Text) → All Plain xs → All Plain ys → All Plain (reverse_onto xs ys)
unfolding reverse_onto
reverse_onto-Plain [] ys h k = k
reverse_onto-Plain (x ∷ xs) ys (p, h) k = reverse_onto-Plain xs (x ∷ ys) h (p, k)

-- path.Clean makes an absolute path plain.
clean-IsPlainPath : (s : Text) → is_abs s ≡ true → IsPlainPath (clean s)
unfolding clean
clean-IsPlainPath s h = record {
  pieces = reverse_onto (push_pieces true [] (split_on b'/' s)) [];
  spelled = rw h refl;
  plain = reverse_onto-Plain _ [] (push_pieces-Plain [] (split_on b'/' s) tt) tt;
}

is_abs-plain : {path : Text} → IsPlainPath path → is_abs path ≡ true
unfolding is_abs
is_abs-plain h = rw h.spelled (ground arith)

is_abs-append : (s r : Text) → is_abs s ≡ true → is_abs (s ++ r) ≡ true
unfolding is_abs
is_abs-append [] r h = cc
is_abs-append (c ∷ s) r h = h

is_abs-nonempty : (s : Text) → is_abs s ≡ true → (s == t "") ≡ false
unfolding is_abs
is_abs-nonempty s h = elim (Bool-cases (s == t "")) [
  | inl e ↦ absurd (cc (ap is_abs ((==_iff s (t "")).0 e)))
  | inr e ↦ e
]

join-IsPlainPath : (a b : Text) → is_abs a ≡ true → IsPlainPath (join a b)
unfolding join
join-IsPlainPath a b h = elim (Bool-cases (b == t "")) [
  | inl e ↦ rw (is_abs-nonempty a h, join) (rw e (clean-IsPlainPath a h))
  | inr e ↦
      rw (is_abs-nonempty a h, join)
        (rw e (clean-IsPlainPath (a ++ b'/' ∷ b) (is_abs-append a (b'/' ∷ b) h)))
]

-- `path` is the directory or below it.
abbrev pub Under : Text → Text → Type 0
Under dir path = (path ≡ dir) ⊎ (has_prefix (dir ++ b'/' ∷ []) path ≡ true)

-- A path that neither leaves the directory nor is spelled with "..", "." or an empty component.
pub record Contained (dir path : Text) : Type 0 where
  pub under : Under (clean dir) path
  pub plain_path : IsPlainPath path

is_outside-Under : (dir target : Text) → is_outside dir target ≡ false → Under dir target
unfolding is_outside
is_outside-Under dir target h = elim (Bool-cases (target == dir)) [
  | inl e ↦ inl ((==_iff target dir).0 e)
  | inr e ↦ inr (ground arith)
]

safe_join-inv :
    (dir name : Text) {target : Text}
    → safe_join dir name ≡ ok target
    → (is_outside (clean dir) target ≡ false) × (join (clean dir) name ≡ target)
unfolding safe_join
safe_join-inv dir name {target} e =
    elim (Bool-cases (is_outside (clean dir) (join (clean dir) name))) [
      | inl out ↦ cc (rw (out, safe_join) at e)
      | inr inside ↦
          let same : join (clean dir) name ≡ target = cc (rw (inside, safe_join) at e) in
          (rw (← same) inside, same)
    ]

-- A name that safeJoin accepts for an absolute directory leads to a path below the directory, and no
-- component of the path is "..", "." or empty.
pub safe_join-Contained :
    (dir name : Text) {target : Text}
    → is_abs dir ≡ true
    → safe_join dir name ≡ ok target
    → Contained dir target
safe_join-Contained dir name {target} h e =
    let (inside, same) = safe_join-inv dir name {target = target} e in
    record {
      under = is_outside-Under (clean dir) target inside;
      plain_path =
          subst IsPlainPath same
            (join-IsPlainPath (clean dir) name (is_abs-plain (clean-IsPlainPath dir h)));
    }

pub safe_extract_path-Contained :
    (dir name : Text) {target : Text}
    → is_abs dir ≡ true
    → safe_extract_path dir name ≡ ok target
    → Contained dir target
unfolding safe_extract_path
safe_extract_path-Contained dir name {target} h e =
    safe_join-Contained dir (clean name) {target = target} h (ground arith)

-- ===== src/Oak/Context/Reference.antt =====
-- The build context of cmd/oak/context.go as docker defines it: of all that is in the directory, what no
-- pattern of .dockerignore matches. The walk prunes directories, and comes to the same.
use oakberryio.Prelude.{
  ◌≡◌, ◌∙◌, refl, arith, Bool, true, false, ◌&&◌, ◌||◌, not, none, some, List, [], ◌∷◌, ◌++◌, Text,
  t, ◌==◌, text_eq, nat_eq, if◌then◌else◌,
}
use oakberryio.Paths.{clean}
use oakberryio.Deploy.GuestEnv.{has_prefix}
use oakberryio.Extract.{Entry, Kind}
use oakberryio.Oak.Context.{
  Node, file, link, device, locked_file, locked_dir, dir, Nodes, end, entry, Matcher, is_dir,
}

-- Each file of the tree and each directory, with its path
unfoldable mutual
  pub listing : Text → Node → List (Text × Entry)
  listing path (file bytes) = (path, record { name = path; kind = Kind.regular bytes }) ∷ []
  listing path (link target) = (path, record { name = path; kind = Kind.symlink target }) ∷ []
  listing path device = (path, record { name = path; kind = Kind.other }) ∷ []
  listing path locked_file = []
  listing path locked_dir = []
  listing path (dir es) =
      (path, record { name = path ++ b'/' ∷ []; kind = Kind.folder })
      ∷ listing_entries (path ++ b'/' ∷ []) es

  pub listing_entries : Text → Nodes → List (Text × Entry)
  listing_entries front end = []
  listing_entries front (entry name n es) = listing (front ++ name) n ++ listing_entries front es

-- Nothing in the tree fails to be read.
unfoldable mutual
  pub readable : Node → Bool
  readable locked_file = false
  readable locked_dir = false
  readable (dir es) = readable_entries es
  readable (file bytes) = true
  readable (link target) = true
  readable device = true

  pub readable_entries : Nodes → Bool
  readable_entries end = true
  readable_entries (entry name n es) = readable n && readable_entries es

-- The directory without its .git
unfoldable pub without_git : Nodes → Nodes
without_git end = end
without_git (entry name n es) =
    let rest = without_git es in if name == t ".git" then rest else entry name n rest

-- A .git that is there is a directory.
unfoldable pub git_is_folder : Nodes → Bool
git_is_folder end = true
git_is_folder (entry name n es) = (not (name == t ".git") || is_dir n) && git_is_folder es

module _ (pm : Matcher) (dockerfile : Text) where
  -- What docker sends of a directory: the Dockerfile, and what is not ignored.
  unfoldable pub included : Text → Bool
  included path =
      not (path == t ".dockerignore")
      && (path == clean dockerfile
          || elim (pm.matches path) as (λ m. Bool) [ none ↦ false | some ignored ↦ not ignored ])

  unfoldable pub wanted : List (Text × Entry) → List Entry
  wanted [] = []
  wanted ((path, e) ∷ xs) = let rest = wanted xs in if included path then e ∷ rest else rest

  pub wanted-append : (xs ys : List (Text × Entry)) → wanted (xs ++ ys) ≡ wanted xs ++ wanted ys
  unfolding wanted
  wanted-append [] ys = refl
  wanted-append ((path, e) ∷ xs) ys = ground (arith, wanted-append xs ys)

pub has_prefix_self : (p s : Text) → has_prefix p (p ++ s) ≡ true
unfolding has_prefix
has_prefix_self [] s = refl
has_prefix_self (c ∷ p) s = ground (arith, has_prefix_self p s)

pub has_prefix_refl : (p : Text) → has_prefix p p ≡ true
unfolding has_prefix
has_prefix_refl [] = refl
has_prefix_refl (c ∷ p) = ground (arith, has_prefix_refl p)

pub has_prefix-append : (p s r : Text) → has_prefix p s ≡ true → has_prefix p (s ++ r) ≡ true
unfolding has_prefix
has_prefix-append [] s r h = refl
has_prefix-append (c ∷ p) [] r h = cc
has_prefix-append (c ∷ p) (d ∷ s) r h = ground (arith, has_prefix-append p s r)

pub has_prefix_trans :
    (p q s : Text) → has_prefix p q ≡ true → has_prefix q s ≡ true → has_prefix p s ≡ true
unfolding has_prefix
has_prefix_trans [] q s h k = refl
has_prefix_trans (c ∷ p) [] s h k = cc
has_prefix_trans (c ∷ p) (d ∷ q) [] h k = cc
has_prefix_trans (c ∷ p) (d ∷ q) (e ∷ s) h k = ground (arith, has_prefix_trans p q s)

-- Under a front nothing of which is included, nothing is wanted.
module _ (pm : Matcher) (dockerfile : Text) (front : Text)
    (out : (p : Text) → has_prefix front p ≡ true → included pm dockerfile p ≡ false) where
  mutual
    unfolding listing wanted

    wanted_none :
        (path : Text) (n : Node)
        → has_prefix front path ≡ true
        → wanted pm dockerfile (listing path n) ≡ []
    wanted_none path (file bytes) h = rw (out path h) refl
    wanted_none path (link target) h = rw (out path h) refl
    wanted_none path device h = rw (out path h) refl
    wanted_none path locked_file h = refl
    wanted_none path locked_dir h = refl
    wanted_none path (dir es) h =
        rw (out path h)
          (wanted_entries_none (path ++ b'/' ∷ []) es (has_prefix-append front path _ h))

    pub wanted_entries_none :
        (deeper : Text) (es : Nodes)
        → has_prefix front deeper ≡ true
        → wanted pm dockerfile (listing_entries deeper es) ≡ []
    wanted_entries_none deeper end h = refl
    wanted_entries_none deeper (entry name n es) h =
        wanted-append pm dockerfile (listing (deeper ++ name) n) (listing_entries deeper es)
        ∙ rw
            (
              wanted_none (deeper ++ name) n (has_prefix-append front deeper name h),
              wanted_entries_none deeper es h,
            )
            refl

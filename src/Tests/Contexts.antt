-- ===== src/Tests/Contexts.antt =====
-- Build contexts of a directory with a Dockerfile, a source file and a directory that is ignored.
use oakberryio.Prelude.{
  ◌≡◌, refl, ap, arith, true, false, some, List, [], ◌∷◌, ◌++◌, Text, t, nat_eq, text_eq,
}
use oakberryio.Prelude.Results.{ok}
use oakberryio.Paths.{clean, split_on, join_with, push_piece, push_pieces, reverse_onto, is_abs}
use oakberryio.Deploy.GuestEnv.{has_prefix}
use oakberryio.Extract.{Entry, Kind}
use oakberryio.Oak.Context.{
  file, dir, Nodes, end, entry, Matcher, Moby, contents, is_dir, visit, walk, finished,
  ignore_patterns, tar_context,
}
use oakberryio.Oak.Context.Reference.{
  listing, readable, wanted, included, without_git, git_is_folder, has_prefix-append,
  has_prefix_trans,
}
use oakberryio.Oak.Context.Sent.{followed, tar_context-wanted, tar_context-git_file}

-- The pattern "tmp*"
abbrev matcher : Matcher
matcher = record { matches = λ p. some (has_prefix (t "tmp") p); exclusions = false; patterns = [] }

abbrev pub moby : Moby
moby = record { read_all = λ bytes. some (bytes ∷ []); new_matcher = λ patterns. some matcher }

abbrev sources : Nodes
sources = entry (t ".git") (dir (entry (t "HEAD") (file (t "ref")) end)) (
    entry (t "Dockerfile") (file (t "FROM scratch")) (
      entry (t "app") (dir (entry (t "main.go") (file (t "package main")) end))
        (entry (t "tmp") (dir (entry (t "x") (file (t "y")) end)) end)))

abbrev sent : List Entry
sent =
    record { name = t "Dockerfile"; kind = Kind.regular (t "FROM scratch") }
    ∷ record { name = t "app/"; kind = Kind.folder }
    ∷ record { name = t "app/main.go"; kind = Kind.regular (t "package main") }
    ∷ []

is_ignored-below :
    (d p : Text)
    → ◌≡◌ (some (has_prefix (t "tmp") d)) (some true)
    → has_prefix (d ++ b'/' ∷ []) p ≡ true
    → ◌≡◌ (some (has_prefix (t "tmp") p)) (some true)
is_ignored-below d p h k =
    let e : has_prefix (t "tmp") d ≡ true = cc in
    ap some (
      has_prefix_trans (t "tmp") (d ++ b'/' ∷ []) p (has_prefix-append (t "tmp") d (b'/' ∷ []) e) k)

not_above_dockerfile :
    (d : Text)
    → ◌≡◌ (some (has_prefix (t "tmp") d)) (some true)
    → has_prefix (d ++ b'/' ∷ []) (clean (t "Dockerfile")) ≡ false
unfolding clean split_on join_with push_piece push_pieces reverse_onto is_abs nat_eq text_eq
    has_prefix
not_above_dockerfile [] h = cc
not_above_dockerfile (c ∷ d) h = ground arith

tar_context-wanted_example :
    tar_context moby (contents (t "tmp*")) sources (t "Dockerfile") ≡ ok sent
unfolding ignore_patterns listing readable wanted included without_git git_is_folder has_prefix
    clean split_on join_with push_piece push_pieces reverse_onto is_abs nat_eq text_eq is_dir
tar_context-wanted_example =
    tar_context-wanted moby (contents (t "tmp*")) (t "tmp*" ∷ []) matcher sources (t "Dockerfile")
      refl refl (λ p e. cc) (λ d p h x k. is_ignored-below d p h k)
      (λ d h x. not_above_dockerfile d h) refl refl

tar_context-git_file_example :
    tar_context moby
      (contents (t "tmp*"))
      (entry
        (t ".git")
        (file (t "gitdir: /w"))
        (entry (t "Dockerfile") (file (t "FROM scratch")) end))
      (t "Dockerfile")
    ≡ ok []
unfolding tar_context ignore_patterns walk finished visit followed
tar_context-git_file_example =
    tar_context-git_file moby (contents (t "tmp*")) end
      (entry (t "Dockerfile") (file (t "FROM scratch")) end) (t "gitdir: /w") (t "Dockerfile")

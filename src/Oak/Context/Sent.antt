-- ===== src/Oak/Context/Sent.antt =====
-- What tarContext of cmd/oak/context.go sends to a remote build.
use oakberryio.Prelude.{
  ◌≡◌, ap, refl, true, false, none, some, List, [], Text, t, nat_eq, text_eq, ◌∷◌, ◌++◌,
}
use oakberryio.Prelude.Results.{ok, from_option, bad_pattern, ◌>>=◌}
use oakberryio.Paths.{clean}
use oakberryio.Deploy.GuestEnv.{has_prefix}
use oakberryio.Oak.Context.{
  file, Nodes, end, entry, Matcher, Moby, Opened, exception_below, decide, Walked, visit,
  followed_by, skip_ends, walk, walk_entries, finished, ignore_patterns, tar_context,
}
use oakberryio.Oak.Context.Reference.{
  listing_entries, readable_entries, wanted, without_git, git_is_folder,
}
use oakberryio.Oak.Context.Equivalence.{walk_root}

-- Where the matcher knows every path, matches all that lies in a directory that it matches and that no
-- exception is below, and the Dockerfile lies in no such directory: of a directory that can be read and
-- whose .git, if there is one, is a directory, the Dockerfile is sent and all that no pattern matches,
-- but for .git and .dockerignore, and nothing else.
pub tar_context-wanted :
    (moby : Moby) (ignore_file : Opened) (patterns : List Text) (pm : Matcher) (root : Nodes)
    (dockerfile : Text)
    → ignore_patterns moby ignore_file ≡ ok patterns
    → moby.new_matcher patterns ≡ some pm
    → ((p : Text) → pm.matches p ≡ none → false ≡ true)
    → ((d p : Text)
        → pm.matches d ≡ some true
        → exception_below pm d ≡ false
        → has_prefix (d ++ b'/' ∷ []) p ≡ true
        → pm.matches p ≡ some true)
    → ((d : Text)
        → pm.matches d ≡ some true
        → exception_below pm d ≡ false
        → has_prefix (d ++ b'/' ∷ []) (clean dockerfile) ≡ false)
    → git_is_folder root ≡ true
    → readable_entries (without_git root) ≡ true
    → tar_context moby ignore_file root dockerfile
      ≡ ok (wanted pm dockerfile (listing_entries [] (without_git root)))
unfolding tar_context finished
tar_context-wanted moby ignore_file patterns pm root dockerfile read made total covers reachable git
      whole =
    rw read (rw made (rw (walk_root pm dockerfile total covers reachable root git whole) refl))

-- The entries of two directories, one after the other
unfoldable pub followed : Nodes → Nodes → Nodes
followed end later = later
followed (entry name n es) later = entry name n (followed es later)

walk_entries-git_file :
    (pm : Matcher) (dockerfile bytes : Text) (before after : Nodes)
    → walk_entries pm dockerfile [] (followed before (entry (t ".git") (file bytes) after))
      ≡ walk_entries pm dockerfile [] before
unfolding walk visit decide followed text_eq nat_eq
walk_entries-git_file pm dockerfile bytes end after = refl
walk_entries-git_file pm dockerfile bytes (entry name n es) after =
    ap (λ (rest : Walked). skip_ends (followed_by (walk pm dockerfile name n) rest))
      (walk_entries-git_file pm dockerfile bytes es after)

-- Where .git is a file, as in a worktree or a submodule, nothing is sent of what comes after it in the
-- directory: the context is that of the entries before it.
pub tar_context-git_file :
    (moby : Moby) (ignore_file : Opened) (before after : Nodes) (bytes dockerfile : Text)
    → tar_context moby ignore_file
        (followed before (entry (t ".git") (file bytes) after))
        dockerfile
      ≡ tar_context moby ignore_file before dockerfile
unfolding tar_context
tar_context-git_file moby ignore_file before after bytes dockerfile = λ i. do
  patterns ← ignore_patterns moby ignore_file
  pm ← from_option bad_pattern (moby.new_matcher patterns)
  finished (walk_entries-git_file pm dockerfile bytes before after i)

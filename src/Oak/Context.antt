-- ===== src/Oak/Context.antt =====
-- cmd/oak/context.go: the tar of a build context. A directory tree is walked as filepath.WalkDir does.
pub mod Reference
pub mod Equivalence
pub mod Sent
use oakberryio.Prelude.{
  Bool, true, false, ◌&&◌, ◌||◌, Option, none, some, List, [], ◌∷◌, ◌++◌, Text, t, ◌==◌, text_eq,
  any, if◌then◌else◌,
}
use oakberryio.Prelude.Results.{
  Error, Result, ok, err, from_option, file_failed, bad_pattern, ◌>>=◌,
}
use oakberryio.Paths.{clean}
use oakberryio.Deploy.GuestEnv.{has_prefix}
use oakberryio.Extract.{Entry, Kind}

-- A directory's entries stand in the order of their names, as os.ReadDir gives them.
mutual
  pub data Node : Type 0 where
    file : Text → Node
    link : Text → Node
    -- a pipe or a device, of which the tar has a header alone
    device : Node
    -- a file of which tarEntry fails, and a directory that os.ReadDir fails on
    locked_file locked_dir : Node
    dir : Nodes → Node

  pub data Nodes : Type 0 where
    end : Nodes
    entry : Text → Node → Nodes → Nodes

pub record Pattern : Type 0 where
  pub text : Text
  pub exclusion : Bool

-- A *patternmatcher.PatternMatcher: MatchesOrParentMatches, Exclusions and Patterns.
pub record Matcher : Type 0 where
  pub matches : Text → Option Bool
  pub exclusions : Bool
  pub patterns : List Pattern

-- ignorefile.ReadAll and patternmatcher.New
pub record Moby : Type 0 where
  pub read_all : Text → Option (List Text)
  pub new_matcher : List Text → Option Matcher

unfoldable pub exception_below : Matcher → Text → Bool
exception_below pm dir_path =
    pm.exclusions
    && any
        (λ (pat : Pattern).
          pat.exclusion && has_prefix (dir_path ++ b'/' ∷ []) (pat.text ++ b'/' ∷ []))
        pm.patterns

unfoldable pub is_dir : Node → Bool
is_dir (dir es) = true
is_dir locked_dir = true
is_dir n = false

-- What the callback of the walk makes of a path.
pub data Decision : Type 0 where
  written : Decision
  -- return nil
  dropped : Decision
  -- return fs.SkipDir
  skipped : Decision
  refused : Error → Decision

unfoldable pub of_match : Matcher → Text → Bool → Option Bool → Decision
of_match pm path is_folder none = refused bad_pattern
of_match pm path is_folder (some false) = written
of_match pm path is_folder (some true) =
    if is_folder then if exception_below pm path then dropped else skipped else dropped

unfoldable pub decide : Matcher → Text → Text → Bool → Decision
decide pm dockerfile path is_folder =
    if path == t ".git"
    then skipped
    else if path == t ".dockerignore"
    then dropped
    else if path == clean dockerfile
    then written
    else of_match pm path is_folder (pm.matches path)

unfoldable pub tar_entry : Text → Node → Result Entry
tar_entry name (file bytes) = ok (record { name = name; kind = Kind.regular bytes })
tar_entry name (link target) = ok (record { name = name; kind = Kind.symlink target })
tar_entry name device = ok (record { name = name; kind = Kind.other })
tar_entry name locked_file = err file_failed
tar_entry name locked_dir = ok (record { name = name ++ b'/' ∷ []; kind = Kind.folder })
tar_entry name (dir es) = ok (record { name = name ++ b'/' ∷ []; kind = Kind.folder })

-- How a call of the walk ends: nil, fs.SkipDir, or another error.
pub data Flow : Type 0 where
  onward : Flow
  skip : Flow
  stop : Error → Flow

-- What was written, and how the walk went on.
pub record Walked : Type 0 where
  pub tar : List Entry
  pub flow : Flow

unfoldable pub write_entry : Text → Node → Walked
write_entry name n = elim (tar_entry name n) [
  | err e ↦ record { tar = []; flow = stop e }
  | ok e ↦ record { tar = e ∷ []; flow = onward }
]

-- The callback, on a path that is not the root.
unfoldable pub visit : Matcher → Text → Text → Node → Walked
visit pm dockerfile path n = elim (decide pm dockerfile path (is_dir n)) [
  | written ↦ write_entry path n
  | dropped ↦ record { tar = []; flow = onward }
  | skipped ↦ record { tar = []; flow = skip }
  | refused e ↦ record { tar = []; flow = stop e }
]

-- The rest of a walk, where its first part went on
abbrev pub followed_by : Walked → Walked → Walked
followed_by first rest = elim first.flow [
  | onward ↦ record { tar = first.tar ++ rest.tar; flow = rest.flow }
  | skip ↦ record { tar = first.tar; flow = skip }
  | stop e ↦ record { tar = first.tar; flow = stop e }
]

-- fs.SkipDir of a directory is no error.
abbrev pub skip_ends : Walked → Walked
skip_ends w = record w { flow = elim w.flow [ onward ↦ onward | skip ↦ onward | stop e ↦ stop e ] }

module _ (pm : Matcher) (dockerfile : Text) where
  -- filepath.walkDir: fs.SkipDir of anything but a directory ends the directory that it is in.
  unfoldable mutual
    pub walk : Text → Node → Walked
    walk path (dir es) =
        skip_ends
          (followed_by (visit pm dockerfile path (dir es)) (walk_entries (path ++ b'/' ∷ []) es))
    walk path locked_dir = skip_ends (
        followed_by (visit pm dockerfile path locked_dir)
          (record { tar = []; flow = stop file_failed }))
    walk path (file bytes) = visit pm dockerfile path (file bytes)
    walk path (link target) = visit pm dockerfile path (link target)
    walk path device = visit pm dockerfile path device
    walk path locked_file = visit pm dockerfile path locked_file

    pub walk_entries : Text → Nodes → Walked
    walk_entries front end = record { tar = []; flow = onward }
    walk_entries front (entry name n es) =
        skip_ends (followed_by (walk (front ++ name) n) (walk_entries front es))

unfoldable pub finished : Walked → Result (List Entry)
finished w = elim w.flow [ onward ↦ ok w.tar | skip ↦ ok w.tar | stop e ↦ err e ]

-- root/.dockerignore: not there, not to be ignore_file, or its bytes
pub data Opened : Type 0 where
  missing unopened : Opened
  contents : Text → Opened

unfoldable pub ignore_patterns : Moby → Opened → Result (List Text)
ignore_patterns moby missing = ok []
ignore_patterns moby unopened = err file_failed
ignore_patterns moby (contents bytes) = from_option bad_pattern (moby.read_all bytes)

unfoldable pub tar_context : Moby → Opened → Nodes → Text → Result (List Entry)
tar_context moby ignore_file root dockerfile = do
  patterns ← ignore_patterns moby ignore_file
  pm ← from_option bad_pattern (moby.new_matcher patterns)
  finished (walk_entries pm dockerfile (t "") root)

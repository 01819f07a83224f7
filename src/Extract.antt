-- ===== src/Extract.antt =====
-- The two places that unpack a tar stream: extractBuildContext of internal/daemon/build.go and
-- untarLayer of internal/rootfs/flatten.go. archive/tar is a parameter: a stream is its entries.
pub mod Guard
pub mod Inside
use oakberryio.Prelude.{
  ℕ, Bool, true, false, ◌||◌, ◌&&◌, not, Option, none, some, List, [], ◌∷◌, ◌++◌, Text, t, ◌==◌,
  nat_eq, text_eq, if◌then◌else◌, length, drop,
}
use oakberryio.Prelude.Results.{Result, ok, err, bad_tar, file_failed}
use oakberryio.Effects.{Exec, pure, fail, lift, modify, ◌>>=◌, ◌>>◌}
use oakberryio.Paths.{clean, join}
use oakberryio.Text.Trim.{cut_prefix}
use oakberryio.Deploy.GuestEnv.{has_prefix}
use oakberryio.Extract.Guard.{safe_extract_path, safe_join}

pub data Kind : Type 0 where
  folder : Kind
  regular : Text → Kind
  -- a symbolic link, and a hard link, to this name
  symlink hardlink : Text → Kind
  other : Kind

pub record Entry : Type 0 where
  pub name : Text
  pub kind : Kind

-- What is done to the file system.
pub data FsOp : Type 0 where
  -- os.MkdirAll of an entry, and of the parent of an entry
  made_dir made_parent : Text → FsOp
  wrote : Text → Text → FsOp
  -- os.Remove, and os.RemoveAll
  removed cleared : Text → FsOp
  -- a link at the second path
  linked hard_linked : Text → Text → FsOp

abbrev pub Disk : Type 0
Disk = List FsOp

-- The file system: whether a call succeeds, and the names in a directory, if it is there.
pub record FileSystem : Type 0 where
  pub works : FsOp → Bool
  pub names : Text → Option (List Text)

-- What stands before the last slash, with it
unfoldable pub front_of : Text → Text
front_of [] = []
front_of (c ∷ s) = elim (front_of s) [ [] ↦ if c == b'/' then c ∷ [] else [] | d ∷ r ↦ c ∷ d ∷ r ]

-- filepath.Dir, and filepath.Base of a path that is clean
unfoldable pub dir_of : Text → Text
dir_of s = clean (front_of s)

unfoldable pub base_of : Text → Text
base_of s = if s == t "/" then s else drop (length (front_of s)) s

module _ (fs : FileSystem) where
  unfoldable pub perform : FsOp → Exec Disk (Unit {0})
  perform op = if fs.works op then modify (λ d. op ∷ d) else fail file_failed

  -- A call whose error is not looked at
  unfoldable pub attempt : FsOp → Exec Disk (Unit {0})
  attempt op = if fs.works op then modify (λ d. op ∷ d) else pure tt

  unfoldable pub extract_entry : Text → Kind → Exec Disk (Unit {0})
  extract_entry target folder = perform (made_dir target)
  extract_entry target (regular bytes) = do
    perform (made_parent (dir_of target))
    perform (wrote target bytes)
  extract_entry target (symlink name) = do
    perform (made_parent (dir_of target))
    perform (cleared target)
    perform (linked name target)
  extract_entry target (hardlink name) = fail bad_tar
  extract_entry target other = fail bad_tar

  -- The entries, up to an error of the reader if there is one.
  unfoldable pub extract_build_context : Text → Bool → List Entry → Exec Disk (Unit {0})
  extract_build_context dir broken [] = if broken then fail bad_tar else pure tt
  extract_build_context dir broken (e ∷ es) = do
    target ← lift (safe_extract_path dir e.name)
    extract_entry target e.kind
    extract_build_context dir broken es

  unfoldable pub clear_names : Text → List Text → Exec Disk (Unit {0})
  clear_names target [] = pure tt
  clear_names target (n ∷ ns) = do perform (cleared (join target n)); clear_names target ns

  -- ".wh..wh..opq": all that is in the directory so far
  unfoldable pub clear_dir : Text → Exec Disk (Unit {0})
  clear_dir target = elim (fs.names target) [ none ↦ pure tt | some ns ↦ clear_names target ns ]

  unfoldable pub place_entry : Text → Text → Kind → Exec Disk (Unit {0})
  place_entry dir target folder = perform (made_dir target)
  place_entry dir target (regular bytes) = do
    perform (made_parent (dir_of target))
    perform (wrote target bytes)
  place_entry dir target (symlink name) = do
    perform (made_parent (dir_of target))
    attempt (removed target)
    perform (linked name target)
  place_entry dir target (hardlink name) = do
    source ← lift (safe_join dir (clean name))
    perform (made_parent (dir_of target))
    attempt (removed target)
    perform (hard_linked source target)
  place_entry dir target other = pure tt

  unfoldable pub untar_entry : Text → Text → Kind → Exec Disk (Unit {0})
  untar_entry dir name kind =
      if base_of name == t ".wh..wh..opq"
      then (lift (safe_join dir (dir_of name)) >>= clear_dir)
      else elim (cut_prefix (t ".wh.") (base_of name)) [
        | some victim ↦
            lift (safe_join dir (join (dir_of name) victim)) >>= λ target. perform (cleared target)
        | none ↦ lift (safe_join dir name) >>= λ target. place_entry dir target kind
      ]

  unfoldable pub untar_layer : Text → Bool → List Entry → Exec Disk (Unit {0})
  untar_layer dir broken [] = if broken then fail bad_tar else pure tt
  untar_layer dir broken (e ∷ es) = do
    untar_entry dir (clean e.name) e.kind
    untar_layer dir broken es

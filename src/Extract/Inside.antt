-- ===== src/Extract/Inside.antt =====
-- Where extractBuildContext of internal/daemon/build.go writes, as far as the names of paths tell: a
-- symbolic link that a path goes through is not followed here.
use oakberryio.Prelude.{◌≡◌, refl, Bool, true, List, [], ◌∷◌, Text, All}
use oakberryio.Prelude.Results.{file_failed, bad_tar}
use oakberryio.Effects.Keeps.{
  Keeps, Keeps-bind, Keeps-if, Keeps-fail, Keeps-pure, Keeps-modify, Keeps-lift-bind,
}
use oakberryio.Paths.{is_abs}
use oakberryio.Extract.Guard.{Contained, safe_extract_path, safe_extract_path-Contained}
use oakberryio.Extract.{
  Entry, Kind, folder, regular, symlink, hardlink, other, FsOp, made_dir, made_parent, wrote,
  removed, cleared, linked, hard_linked, Disk, FileSystem, dir_of, perform, extract_entry,
  extract_build_context,
}

-- What the call touches has the directory's own path or one below it; what is made for a parent has the
-- path of the parent of such a path.
abbrev pub Inside : Text → FsOp → Type 0
Inside dir (made_dir path) = Contained dir path
Inside dir (made_parent path) = (target : Text) × (Contained dir target × (path ≡ dir_of target))
Inside dir (wrote path bytes) = Contained dir path
Inside dir (removed path) = Contained dir path
Inside dir (cleared path) = Contained dir path
Inside dir (linked name path) = Contained dir path
Inside dir (hard_linked source path) = Contained dir source × Contained dir path

pub record Tidy (dir : Text) (d : Disk) : Type 0 where
  pub ops : All (Inside dir) d

module _ (fs : FileSystem) (dir : Text) where
  Keeps-perform : (op : FsOp) → Inside dir op → Keeps (Tidy dir) (perform fs op)
  unfolding perform
  Keeps-perform op h =
      Keeps-if (fs.works op) _ _ (Keeps-modify _ (λ d k. record { ops = (h, k.ops) }))
        (Keeps-fail file_failed)

  Keeps-extract_entry :
      (target : Text) (kind : Kind)
      → Contained dir target
      → Keeps (Tidy dir) (extract_entry fs target kind)
  unfolding extract_entry
  Keeps-extract_entry target folder h = Keeps-perform (made_dir target) h
  Keeps-extract_entry target (regular bytes) h =
      Keeps-bind _ _ (Keeps-perform (made_parent (dir_of target)) (target, (h, refl)))
        (λ _. Keeps-perform (wrote target bytes) h)
  Keeps-extract_entry target (symlink name) h =
      Keeps-bind _ _ (Keeps-perform (made_parent (dir_of target)) (target, (h, refl))) (λ _.
        Keeps-bind _ _ (Keeps-perform (cleared target) h)
          (λ _. Keeps-perform (linked name target) h))
  Keeps-extract_entry target (hardlink name) h = Keeps-fail bad_tar
  Keeps-extract_entry target other h = Keeps-fail bad_tar

  Keeps-extract_build_context :
      (broken : Bool) (es : List Entry)
      → is_abs dir ≡ true
      → Keeps (Tidy dir) (extract_build_context fs dir broken es)
  unfolding extract_build_context
  Keeps-extract_build_context broken [] h = Keeps-if broken _ _ (Keeps-fail bad_tar) (Keeps-pure tt)
  Keeps-extract_build_context broken (e ∷ es) h =
      Keeps-lift-bind (safe_extract_path dir e.name) _ (λ target safe.
        Keeps-bind _ _
          (Keeps-extract_entry target e.kind
            (safe_extract_path-Contained dir e.name {target = target} h safe))
          (λ _. Keeps-extract_build_context broken es h))

-- Whatever the entries of the tar, and whichever call fails first: each file, directory and link that
-- was made or removed for an entry has the path of the absolute directory itself or one below it, as
-- the path is spelled, without ".."; a directory that was made for the parent of an entry has the path
-- of the parent of such a path. Links that the path goes through are not followed.
pub extract_build_context-Tidy :
    (fs : FileSystem) (dir : Text) (broken : Bool) (es : List Entry)
    → is_abs dir ≡ true
    → Tidy dir (extract_build_context fs dir broken es []).1
extract_build_context-Tidy fs dir broken es h =
    (Keeps-extract_build_context fs dir broken es h).at [] (record { ops = tt })

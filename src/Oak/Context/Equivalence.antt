-- ===== src/Oak/Context/Equivalence.antt =====
-- The walk of cmd/oak/context.go, which prunes directories, against the list of what docker sends.
use oakberryio.Prelude.{
  ◌≡◌, ◌∙◌, ap, refl, sym, arith, Bool, true, false, none, some, List, [], ◌∷◌, ◌++◌, Text, t, ◌==◌,
  text_eq, nat_eq, any, Bool-cases, Option-cases, inl, inr, ==_iff,
}
use oakberryio.Prelude.Results.{ok}
use oakberryio.Paths.{clean}
use oakberryio.Deploy.GuestEnv.{has_prefix}
use oakberryio.Extract.{Entry, Kind}
use oakberryio.Oak.Context.{
  Node, file, link, device, locked_file, locked_dir, dir, Nodes, end, entry, Matcher,
  exception_below, is_dir, written, dropped, skipped, of_match, decide, tar_entry, onward, skip,
  Walked, write_entry, visit, followed_by, skip_ends, walk, walk_entries,
}
use oakberryio.Oak.Context.Reference.{
  listing, listing_entries, readable, readable_entries, included, wanted, wanted-append,
  wanted_entries_none, has_prefix_refl, without_git, git_is_folder,
}

is_slashed : Text → Bool
is_slashed = any (λ c. c == b'/')

is_slashed-append : (s r : Text) → is_slashed s ≡ true → is_slashed (s ++ r) ≡ true
unfolding is_slashed any
is_slashed-append [] r h = cc
is_slashed-append (c ∷ s) r h = ground (arith, is_slashed-append s r)

is_slashed-slash : (s : Text) → is_slashed (s ++ b'/' ∷ []) ≡ true
unfolding is_slashed any
is_slashed-slash [] = ground arith
is_slashed-slash (c ∷ s) = ground (arith, is_slashed-slash s)

slashed_is_no_git : (s : Text) → is_slashed s ≡ true → (s == t ".git") ≡ false
unfolding is_slashed any nat_eq
slashed_is_no_git s h = elim (Bool-cases (s == t ".git")) [
  | inl same ↦ cc (sym h ∙ ap is_slashed ((==_iff s (t ".git")).0 same))
  | inr other ↦ other
]

joined :
    {first first' rest rest' : Walked}
    → first ≡ first'
    → rest ≡ rest'
    → skip_ends (followed_by first rest) ≡ skip_ends (followed_by first' rest')
joined h k = λ i. skip_ends (followed_by (h i) (k i))

module _ (pm : Matcher) (dockerfile : Text)
    (total : (p : Text) → (pm.matches p ≡ none) → false ≡ true)
    (covers : (d p : Text)
      → pm.matches d ≡ some true
      → exception_below pm d ≡ false
      → has_prefix (d ++ b'/' ∷ []) p ≡ true
      → pm.matches p ≡ some true)
    (reachable : (d : Text)
      → pm.matches d ≡ some true
      → exception_below pm d ≡ false
      → has_prefix (d ++ b'/' ∷ []) (clean dockerfile) ≡ false) where
  -- What becomes of a path: it is included and written, or else dropped, or a directory is skipped with
  -- all that is below it.
  data Fate (path : Text) (folder : Bool) : Type 0 where
    sent :
        decide pm dockerfile path folder ≡ written
        → included pm dockerfile path ≡ true
        → Fate path folder
    left_out :
        decide pm dockerfile path folder ≡ dropped
        → included pm dockerfile path ≡ false
        → Fate path folder
    pruned :
        decide pm dockerfile path folder ≡ skipped
        → included pm dockerfile path ≡ false
        → folder ≡ true
        → pm.matches path ≡ some true
        → exception_below pm path ≡ false
        → Fate path folder

  fate_of_match :
      (path : Text) (folder : Bool)
      → (path == t ".git") ≡ false
      → (path == t ".dockerignore") ≡ false
      → (path == clean dockerfile) ≡ false
      → pm.matches path ≡ some true
      → Fate path folder
  unfolding decide of_match included
  fate_of_match path false h a b c =
      Fate.left_out (rw h (rw a (rw b (rw c refl)))) (rw a (rw b (rw c refl)))
  fate_of_match path true h a b c = elim (Bool-cases (exception_below pm path)) [
    | inl d ↦
        Fate.left_out (rw h (rw a (rw b (rw (c, of_match) (rw d refl))))) (rw a (rw b (rw c refl)))
    | inr d ↦
        Fate.pruned (rw h (rw a (rw b (rw (c, of_match) (rw d refl))))) (rw a (rw b (rw c refl)))
          refl c d
  ]

  fate : (path : Text) (folder : Bool) → (path == t ".git") ≡ false → Fate path folder
  unfolding decide of_match included
  fate path folder h = elim (Bool-cases (path == t ".dockerignore")) [
    | inl a ↦ Fate.left_out (rw h (rw a refl)) (rw a refl)
    | inr a ↦ elim (Bool-cases (path == clean dockerfile)) [
      | inl b ↦ Fate.sent (rw h (rw a (rw b refl))) (rw a (rw b refl))
      | inr b ↦ elim (Option-cases (pm.matches path)) [
        | inl c ↦ absurd (cc (total path c))
        | inr (false, c) ↦ Fate.sent (rw h (rw a (rw b (rw c refl)))) (rw a (rw b (rw c refl)))
        | inr (true, c) ↦ fate_of_match path folder h a b c
      ]
    ]
  ]

  -- Where a directory is skipped, nothing below it is included.
  below_pruned :
      (path : Text)
      → pm.matches path ≡ some true
      → exception_below pm path ≡ false
      → (p : Text) → has_prefix (path ++ b'/' ∷ []) p ≡ true
      → included pm dockerfile p ≡ false
  unfolding included
  below_pruned path c d p h = elim (Bool-cases (p == clean dockerfile)) [
    | inl same ↦ cc (
        sym (reachable path c d)
        ∙ ap (has_prefix (path ++ b'/' ∷ [])) (sym ((==_iff p (clean dockerfile)).0 same))
        ∙ h)
    | inr other ↦ rw other (rw (covers path p c d h) (ground arith))
  ]

  -- A file is never the cause of fs.SkipDir, but for a file .git.
  visit_file :
      (path : Text) (n : Node) (e : Entry)
      → (path == t ".git") ≡ false
      → is_dir n ≡ false
      → tar_entry path n ≡ ok e
      → visit pm dockerfile path n
        ≡ record { tar = wanted pm dockerfile ((path, e) ∷ []); flow = onward }
  unfolding visit write_entry wanted
  visit_file path n e h k made = elim (fate path (is_dir n) h) [
    | Fate.sent d i ↦ rw (d, visit) (rw (made, write_entry) (rw i refl))
    | Fate.left_out d i ↦ rw (d, visit) (rw i refl)
    | Fate.pruned d i f m x ↦ cc (sym f ∙ k)
  ]

  dir_step :
      (path : Text) (es : Nodes)
      → (path == t ".git") ≡ false
      → walk_entries pm dockerfile (path ++ b'/' ∷ []) es ≡ record {
        tar = wanted pm dockerfile (listing_entries (path ++ b'/' ∷ []) es);
        flow = onward;
      }
      → walk pm dockerfile path (dir es)
        ≡ record { tar = wanted pm dockerfile (listing path (dir es)); flow = onward }
  unfolding walk listing visit write_entry tar_entry wanted is_dir
  dir_step path es h below = elim (fate path true h) [
    | Fate.sent d i ↦
        let v : visit pm dockerfile path (dir es) ≡ record {
          tar = record { name = path ++ b'/' ∷ []; kind = Kind.folder } ∷ [];
          flow = onward;
        } =
          rw (d, visit) refl in
        joined v below ∙ rw i refl
    | Fate.left_out d i ↦
        let v : visit pm dockerfile path (dir es) ≡ record { tar = []; flow = onward } =
          rw (d, visit) refl in
        joined v below ∙ rw i refl
    | Fate.pruned d i f m x ↦
        let v : visit pm dockerfile path (dir es) ≡ record { tar = []; flow = skip } =
          rw (d, visit) refl in
        joined v below
        ∙ rw i (
            ap (λ (tar : List Entry). record { tar = tar; flow = onward })
              (sym (
                wanted_entries_none pm dockerfile (path ++ b'/' ∷ []) (below_pruned path m x)
                  (path ++ b'/' ∷ []) es (has_prefix_refl (path ++ b'/' ∷ [])))))
  ]

  one_more :
      {first rest : Walked} (xs ys : List (Text × Entry))
      → first ≡ record { tar = wanted pm dockerfile xs; flow = onward }
      → rest ≡ record { tar = wanted pm dockerfile ys; flow = onward }
      → skip_ends (followed_by first rest)
        ≡ record { tar = wanted pm dockerfile (xs ++ ys); flow = onward }
  one_more xs ys h k = joined h k ∙ rw (wanted-append pm dockerfile xs ys) refl

  nothing_walked :
      ◌≡◌ {A = Walked}
        (record { tar = []; flow = onward })
        (record { tar = wanted pm dockerfile []; flow = onward })
  unfolding wanted
  nothing_walked = refl

  mutual
    unfolding walk listing readable is_dir tar_entry

    walk-listing :
        (path : Text) (n : Node)
        → (path == t ".git") ≡ false
        → readable n ≡ true
        → walk pm dockerfile path n
          ≡ record { tar = wanted pm dockerfile (listing path n); flow = onward }
    walk-listing path (file bytes) h k =
        visit_file path (file bytes) (record { name = path; kind = Kind.regular bytes }) h refl refl
    walk-listing path (link target) h k =
        visit_file path (link target) (record { name = path; kind = Kind.symlink target }) h refl
          refl
    walk-listing path device h k =
        visit_file path device (record { name = path; kind = Kind.other }) h refl refl
    walk-listing path locked_file h k = cc
    walk-listing path locked_dir h k = cc
    walk-listing path (dir es) h k =
        dir_step path es h (walk_entries-listing (path ++ b'/' ∷ []) es (is_slashed-slash path) k)

    walk_entries-listing :
        (front : Text) (es : Nodes)
        → is_slashed front ≡ true
        → readable_entries es ≡ true
        → walk_entries pm dockerfile front es
          ≡ record { tar = wanted pm dockerfile (listing_entries front es); flow = onward }
    walk_entries-listing front end h k = nothing_walked
    walk_entries-listing front (entry name n es) h k =
        one_more (listing (front ++ name) n) (listing_entries front es)
          (walk-listing (front ++ name) n
            (slashed_is_no_git (front ++ name) (is_slashed-append front name h)) (ground arith))
          (walk_entries-listing front es h (ground arith))

  walk_git :
      (n : Node)
      → is_dir n ≡ true
      → walk pm dockerfile (t ".git") n ≡ record { tar = []; flow = onward }
  unfolding walk visit decide is_dir text_eq
  walk_git (dir es) h = refl
  walk_git locked_dir h = refl
  walk_git (file bytes) h = cc
  walk_git (link target) h = cc
  walk_git device h = cc
  walk_git locked_file h = cc

  pub walk_root :
      (root : Nodes)
      → git_is_folder root ≡ true
      → readable_entries (without_git root) ≡ true
      → walk_entries pm dockerfile [] root ≡ record {
        tar = wanted pm dockerfile (listing_entries [] (without_git root));
        flow = onward;
      }
  unfolding walk listing readable git_is_folder without_git wanted
  walk_root end g k = refl
  walk_root (entry name n es) g k = elim (Bool-cases (name == t ".git")) [
    | inl same ↦
        let at = (==_iff name (t ".git")).0 same in
        joined (ap (λ (x : Text). walk pm dockerfile x n) at ∙ walk_git n (ground arith))
          (walk_root es (ground arith) (ground arith))
        ∙ rw same refl
    | inr other ↦
        one_more (listing name n) (listing_entries [] (without_git es))
          (walk-listing name n other (ground arith)) (walk_root es (ground arith) (ground arith))
        ∙ rw other refl
  ]

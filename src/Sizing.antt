-- ===== src/Sizing.antt =====
-- internal/daemon/sizing.go, and the number of inodes in internal/daemon/runtime_linux.go. Sizes are
-- taken to stay far below 2^63.
use oakberryio.Prelude.{
  ℕ, ◌+◌, ◌-◌, ◌*◌, ◌/◌, ◌%◌, ◌≤◌, ◌<◌, ◌≡◌, arith, Option, none, some, List, [], ◌∷◌, ◌==◌, nat_eq,
  if◌then◌else◌, length,
}
use oakberryio.Prelude.Results.{Result, ok, err, file_failed}

abbrev mib : ℕ
mib = 1048576

abbrev headroom_mb : ℕ
headroom_mb = 256

abbrev round_mb : ℕ
round_mb = 64

unfoldable pub bytes_to_rounded_mb : ℕ → ℕ
bytes_to_rounded_mb total_bytes =
    let mb = (total_bytes + mib - 1) / mib + headroom_mb in
    if mb % round_mb == 0 then mb else mb + (round_mb - mb % round_mb)

-- An entry that the walk finds: the size of a regular file, or none
abbrev pub Found : Type 0
Found = Option ℕ

unfoldable pub total_bytes : List Found → ℕ
total_bytes [] = 0
total_bytes (none ∷ es) = total_bytes es
total_bytes (some size ∷ es) = size + total_bytes es

-- The walk, or nothing if it failed: the size in megabytes and the number of entries.
unfoldable pub rootfs_size_mb : Option (List Found) → Result (ℕ × ℕ)
rootfs_size_mb none = err file_failed
rootfs_size_mb (some es) = ok (bytes_to_rounded_mb (total_bytes es), length es)

-- inodeCount of BuildRootfs
unfoldable pub inode_count : ℕ → ℕ
inode_count entry_count = entry_count * 2 + 1024

-- The size in megabytes of an image: a multiple of 64 that holds the bytes and 256 megabytes more, and
-- the least such, so that less than a step of 64 megabytes is added.
pub bytes_to_rounded_mb_least :
    (n : ℕ)
    → (bytes_to_rounded_mb n % 64 ≡ 0)
      × (n + 268435456 ≤ bytes_to_rounded_mb n * 1048576)
      × (bytes_to_rounded_mb n * 1048576 < n + 268435456 + 67108864)
unfolding bytes_to_rounded_mb
bytes_to_rounded_mb_least n = ground arith

-- ===== src/Quota/Mounts/Shortest.antt =====
-- The mount point that `CheckMountpoint` of storage/quota finds.
use pouch.Prelude.{
  ℕ, ◌≤◌, ◌≡◌, refl, ◌⊎◌, inl, inr, Bool-cases, true, false, some, List, [], ◌∷◌, Text, is_empty,
  split, length, All, ◌==◌, arith,
}
use pouch.Quota.Mounts.{
  MountLine, mount_lines, Kind, Found, nothing_found, keeps_point, check_line, check_lines,
  check_mountpoint,
}

-- a mount point is found, and is at most as long as that of a line, if the line is of the device
abbrev pub AtMost : (Text → ℕ) → ℕ → Text → MountLine → Type 0
AtMost dev_of dev point l =
    ((dev_of l.point == dev) ≡ false) ⊎ ((is_empty point ≡ false) × (length point ≤ length l.point))

module _ (kind : Kind) (dev_of : Text → ℕ) (dev : ℕ) where
  abbrev FoundOn : Found → Type 0
  FoundOn f = (f.mount_point ≡ []) ⊎ (dev_of f.mount_point ≡ dev)

  check_line-FoundOn :
      (l : MountLine) (f : Found) → FoundOn f → FoundOn (check_line kind dev_of dev l f)
  unfolding check_line
  check_line-FoundOn l f h = elim (Bool-cases (dev_of l.point == dev)) [
    | inr b ↦ rw b h
    | inl b ↦ elim (Bool-cases (keeps_point f l)) [
      | inl k ↦ rw (b, k) h
      | inr k ↦ rw (b, k) (inr (ground (arith, b)))
    ]
  ]

  check_lines-FoundOn :
      (ls : List MountLine) (f : Found) → FoundOn f → FoundOn (check_lines kind dev_of dev ls f)
  unfolding check_lines
  check_lines-FoundOn [] f h = h
  check_lines-FoundOn (l ∷ ls) f h =
      check_lines-FoundOn ls (check_line kind dev_of dev l f) (check_line-FoundOn l f h)

  -- the empty path is no path of the device
  abbrev NoEmptyPath : Type 0
  NoEmptyPath = (dev_of [] == dev) ≡ false

  point-Nonempty :
      NoEmptyPath → (l : MountLine) → (dev_of l.point == dev) ≡ true → is_empty l.point ≡ false
  point-Nonempty n l b = go l.point b
    where
      go : (p : Text) → (dev_of p == dev) ≡ true → is_empty p ≡ false
      go [] b = absurd (ground (arith, b, n))
      go (x ∷ p) b = refl

  abbrev Shrinks : Found → Found → Type 0
  Shrinks f g = (is_empty g.mount_point ≡ false) × (length g.mount_point ≤ length f.mount_point)

  check_line-Shrinks :
      NoEmptyPath
      → (l : MountLine) (f : Found) → is_empty f.mount_point ≡ false
      → Shrinks f (check_line kind dev_of dev l f)
  unfolding check_line
  check_line-Shrinks n l f h = elim (Bool-cases (dev_of l.point == dev)) [
    | inr b ↦ rw b (h, omega arith)
    | inl b ↦ elim (Bool-cases (keeps_point f l)) [
      | inl k ↦ rw (b, k) (h, omega arith)
      | inr k ↦ rw (b, k) (point-Nonempty n l b, ground (arith, k, h))
    ]
  ]

  check_lines-Shrinks :
      NoEmptyPath
      → (ls : List MountLine) (f : Found) → is_empty f.mount_point ≡ false
      → Shrinks f (check_lines kind dev_of dev ls f)
  unfolding check_lines
  check_lines-Shrinks n [] f h = (h, omega arith)
  check_lines-Shrinks n (l ∷ ls) f h =
      let (e, p) = check_line-Shrinks n l f h in
      let (e', q) = check_lines-Shrinks n ls (check_line kind dev_of dev l f) e in
      (e', omega (arith, p, q))

  -- after a line of the device the mount point is at most as long as the line's
  check_line-AtMost :
      NoEmptyPath
      → (l : MountLine) (f : Found) → (dev_of l.point == dev) ≡ true
      → (is_empty (check_line kind dev_of dev l f).mount_point ≡ false)
        × (length (check_line kind dev_of dev l f).mount_point ≤ length l.point)
  unfolding check_line
  check_line-AtMost n l f b = elim (Bool-cases (keeps_point f l)) [
    | inl k ↦ rw (b, k) (ground (arith, k), ground (arith, k))
    | inr k ↦ rw (b, k) (point-Nonempty n l b, omega arith)
  ]

  check_lines-AtMost :
      NoEmptyPath
      → (ls : List MountLine) (f : Found)
      → All (AtMost dev_of dev (check_lines kind dev_of dev ls f).mount_point) ls
  unfolding check_lines
  check_lines-AtMost n [] f = tt
  check_lines-AtMost n (l ∷ ls) f =
      (first, check_lines-AtMost n ls (check_line kind dev_of dev l f))
    where
      first : AtMost dev_of dev (check_lines kind dev_of dev (l ∷ ls) f).mount_point l
      first = elim (Bool-cases (dev_of l.point == dev)) [
        | inr b ↦ inl b
        | inl b ↦
            let (e, p) = check_line-AtMost n l f b in
            let (e', q) = check_lines-Shrinks n ls (check_line kind dev_of dev l f) e in
            inr (e', omega (arith, p, q))
      ]

-- Where the empty path is no path of the device, the mount point that `CheckMountpoint` gives, with
-- either driver, is empty or a path of the device; and if /proc/mounts has a mount point of the device,
-- it is not empty and not longer than that one.
pub check_mountpoint-AtMost :
    (kind : Kind) (dev_of : Text → ℕ) (dev : ℕ) (mounts : Text)
    → (dev_of [] == dev) ≡ false
    → (((check_mountpoint kind dev_of (some mounts) dev).mount_point ≡ [])
        ⊎ (dev_of (check_mountpoint kind dev_of (some mounts) dev).mount_point ≡ dev))
      × All
          (AtMost dev_of dev (check_mountpoint kind dev_of (some mounts) dev).mount_point)
          (mount_lines (split 10 mounts))
unfolding check_mountpoint nothing_found
check_mountpoint-AtMost kind dev_of dev mounts n = (
  check_lines-FoundOn kind dev_of dev (mount_lines (split 10 mounts)) nothing_found (inl refl),
  check_lines-AtMost kind dev_of dev n (mount_lines (split 10 mounts)) nothing_found,
)

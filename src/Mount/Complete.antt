-- ===== src/Mount/Complete.antt =====
-- Every change between two tables has its entry in the difference.
use node_disk_manager.Base.{
  ◌≡◌, ◌⊎◌, inl, inr, true, Option, none, some, List, [], ◌∷◌, ◌++◌, In, refl,
}
use node_disk_manager.Mount.Table.{Filesystem, MountTab}
use node_disk_manager.Mount.Diff.{
  mount, umount, move, remount, DiffEntry, diff_entry, MountTabDiff, counterpart, is_mount,
  new_loop, add_new, all_mounted, all_umounted, diff_entries, entries_of, generate_diff,
}
use node_disk_manager.Mount.Explained.{Unmatched, counterpart-Unmatched}
use node_disk_manager.Mount.Keeps.{
  Some, Some-last, new_loop-Some, old_loop-Some, all_mounted-Some, all_umounted-Some, moved_to,
}
use node_disk_manager.Mount.Vanished.{old_loop-Vanished, Vanished-stable, Vanished}

-- the entry of a new filesystem, and of a changed one
abbrev pub Appeared : Filesystem → DiffEntry → Type 0
Appeared n e = (e.new_fs ≡ some n) × ((e.action ≡ mount) ⊎ (e.action ≡ move))

abbrev pub Changed : Filesystem → Filesystem → DiffEntry → Type 0
Changed o n e = (e.old_fs ≡ some o) × (e.new_fs ≡ some n) × (e.action ≡ remount)

Appeared-stable :
    (n : Filesystem) (e : DiffEntry) (o : Filesystem)
    → is_mount e.action ≡ true
    → Appeared n e
    → Appeared n (moved_to o e)
Appeared-stable n e o t a = (a.0, inr refl)

add_new-Appeared :
    (os : List Filesystem) (md : MountTabDiff) (n : Filesystem)
    → Unmatched n os
    → Some (Appeared n) (add_new md n (counterpart n os))
unfolding add_new
add_new-Appeared os md n u =
    rw (counterpart-Unmatched n os u, add_new)
      (Some-last (Appeared n) md (diff_entry none (some n) mount) (refl, inl refl))

new_loop-Appeared :
    (os : List Filesystem) (md : MountTabDiff) (rest : List Filesystem) (n : Filesystem)
    → In n rest
    → Unmatched n os
    → Some (Appeared n) (new_loop os md rest)
unfolding new_loop
new_loop-Appeared os md [] n i u = absurd i
new_loop-Appeared os md (x ∷ rest) n (inr i) u =
    new_loop-Appeared os (add_new md x (counterpart x os)) rest n i u
new_loop-Appeared os md (x ∷ rest) n (inl e) u = rw (← e) (
    new_loop-Some (Appeared n) (Appeared-stable n) os (add_new md n (counterpart n os)) rest
      (add_new-Appeared os md n u))

all_mounted-Appeared :
    (md : MountTabDiff) (rest : List Filesystem) (n : Filesystem)
    → In n rest
    → Some (Appeared n) (all_mounted md rest)
unfolding all_mounted
all_mounted-Appeared md [] n i = absurd i
all_mounted-Appeared md (x ∷ rest) n (inr i) =
    all_mounted-Appeared (md ++ diff_entry none (some x) mount ∷ []) rest n i
all_mounted-Appeared md (x ∷ rest) n (inl e) = rw (← e) (
    all_mounted-Some (Appeared n) (Appeared-stable n) (md ++ diff_entry none (some n) mount ∷ [])
      rest (Some-last (Appeared n) md (diff_entry none (some n) mount) (refl, inl refl)))

all_umounted-Vanished :
    (md : MountTabDiff) (rest : List Filesystem) (o : Filesystem)
    → In o rest
    → Some (Vanished o) (all_umounted md rest)
unfolding all_umounted
all_umounted-Vanished md [] o i = absurd i
all_umounted-Vanished md (x ∷ rest) o (inr i) =
    all_umounted-Vanished (md ++ diff_entry (some x) none umount ∷ []) rest o i
all_umounted-Vanished md (x ∷ rest) o (inl e) = rw (← e) (
    all_umounted-Some (Vanished o) (Vanished-stable o) (md ++ diff_entry (some o) none umount ∷ [])
      rest (Some-last (Vanished o) md (diff_entry (some o) none umount) (refl, inl refl)))

diff_entries-Appeared :
    (os ns : List Filesystem) (n : Filesystem)
    → In n ns
    → Unmatched n os
    → Some (Appeared n) (diff_entries os ns)
unfolding diff_entries
diff_entries-Appeared os [] n i u = absurd i
diff_entries-Appeared [] (x ∷ ns) n i u = all_mounted-Appeared [] (x ∷ ns) n i
diff_entries-Appeared (o ∷ os) (x ∷ ns) n i u =
    old_loop-Some (Appeared n) (Appeared-stable n) (x ∷ ns) (new_loop (o ∷ os) [] (x ∷ ns)) (o ∷ os)
      (new_loop-Appeared (o ∷ os) [] (x ∷ ns) n i u)

diff_entries-Vanished :
    (os ns : List Filesystem) (o : Filesystem)
    → In o os
    → Unmatched o ns
    → Some (Vanished o) (diff_entries os ns)
unfolding diff_entries
diff_entries-Vanished [] ns o i u = absurd i
diff_entries-Vanished (x ∷ os) [] o i u = all_umounted-Vanished [] (x ∷ os) o i
diff_entries-Vanished (x ∷ os) (n ∷ ns) o i u =
    old_loop-Vanished (n ∷ ns) (new_loop (x ∷ os) [] (n ∷ ns)) (x ∷ os) o i u

module _ (old_tab new_tab : Option MountTab) where
  -- A filesystem of the new table whose source and target are not together in the old table has an
  -- entry of the difference as the new filesystem of a mount or a move.
  pub generate_diff-Appeared :
      (n : Filesystem)
      → In n (entries_of new_tab)
      → Unmatched n (entries_of old_tab)
      → Some (Appeared n) (generate_diff old_tab new_tab)
  unfolding generate_diff
  generate_diff-Appeared = diff_entries-Appeared (entries_of old_tab) (entries_of new_tab)

  -- A filesystem of the old table whose source and target are not together in the new table has an
  -- entry of the difference as the old filesystem of an umount or a move.
  pub generate_diff-Vanished :
      (o : Filesystem)
      → In o (entries_of old_tab)
      → Unmatched o (entries_of new_tab)
      → Some (Vanished o) (generate_diff old_tab new_tab)
  unfolding generate_diff
  generate_diff-Vanished = diff_entries-Vanished (entries_of old_tab) (entries_of new_tab)

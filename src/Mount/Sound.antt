-- ===== src/Mount/Sound.antt =====
-- Every entry that GenerateDiff returns is explained by the two tables.
use node_disk_manager.Base.{
  ◌≡◌, inl, inr, true, Option, none, some, List, [], ◌∷◌, ◌++◌, In, eq_iff, arith, refl, Bool-cases,
}
use node_disk_manager.Mount.Table.{Filesystem, MountTab}
use node_disk_manager.Mount.Diff.{
  diff_entries, add_moved, is_mount_of, MountAction, mount, umount, move, remount, DiffEntry,
  diff_entry, MountTabDiff, counterpart, options_differ, move_entry, new_loop, old_loop, add_new,
  add_old, generate_diff, entries_of, all_mounted, all_umounted,
}
use node_disk_manager.Mount.Explained.{
  Unmatched, OptionsDiffer, Explains, IsExplained, Every, Every-append, counterpart-some,
  counterpart-none,
}

options_differ_iff : (o n : Filesystem) → options_differ o n ≡ true → OptionsDiffer o n
options_differ_iff o n h = ground (arith, eq_iff o.vfs_opts n.vfs_opts, eq_iff o.fs_opts n.fs_opts)

module _ (os ns : List Filesystem) where
  abbrev Good : MountTabDiff → Type 0
  Good = Every (IsExplained os ns)

  add_entry :
      (md : MountTabDiff) (old_fs new_fs : Option Filesystem) (action : MountAction)
      → Good md
      → Explains os ns action old_fs new_fs
      → Good (md ++ diff_entry old_fs new_fs action ∷ [])
  add_entry md old_fs new_fs action g x =
      Every-append (IsExplained os ns) md (diff_entry old_fs new_fs action ∷ []) g (x, tt)

  add_new-Good :
      (md : MountTabDiff) (n : Filesystem) (found : Option Filesystem)
      → counterpart n os ≡ found
      → Good md
      → In n ns
      → Good (add_new md n found)
  unfolding add_new
  add_new-Good md n none e g m = add_entry md none (some n) mount g (m, counterpart-none n os e)
  add_new-Good md n (some o) e g m = elim (Bool-cases (options_differ o n)) [
    | inr same ↦ rw (same, add_new) g
    | inl differ ↦
        let c = counterpart-some n os o e in
        rw differ
          (add_entry md (some o) (some n) remount g (c.0, m, c.1, options_differ_iff o n differ))
  ]

  new_loop-Good :
      (md : MountTabDiff) (rest : List Filesystem)
      → Good md
      → ((n : Filesystem) → In n rest → In n ns)
      → Good (new_loop os md rest)
  unfolding new_loop
  new_loop-Good md [] g sub = g
  new_loop-Good md (n ∷ rest) g sub =
      new_loop-Good (add_new md n (counterpart n os)) rest
        (add_new-Good md n (counterpart n os) refl g (sub n (inl refl))) (λ f i. sub f (inr i))

  -- the entry that getMountEntry returns, after the writes
  moved :
      (o : Filesystem) (action : MountAction) (old_fs new_fs : Option Filesystem)
      → In o os
      → Unmatched o ns
      → is_mount_of o.source o.id (diff_entry old_fs new_fs action) ≡ true
      → Explains os ns action old_fs new_fs
      → Explains os ns move (some o) new_fs
  unfolding is_mount_of
  moved o mount none (some n) io uo t x =
      (io, x.0, uo, x.1, ground (arith, eq_iff n.source o.source), ground arith)
  moved o mount none none io uo t x = x
  moved o mount (some _) none io uo t x = absurd x
  moved o mount (some _) (some n) io uo t x = absurd x
  moved o umount old_fs new_fs io uo t x = cc
  moved o move old_fs new_fs io uo t x = cc
  moved o remount old_fs new_fs io uo t x = cc

  abbrev GoodMove : Option MountTabDiff → Type 0
  GoodMove none = Unit
  GoodMove (some md) = Good md

  skip_entry :
      (x : DiffEntry) (r : Option MountTabDiff)
      → IsExplained os ns x
      → GoodMove r
      → GoodMove (elim r [ none ↦ none | some md ↦ some (x ∷ md) ])
  skip_entry x none gx g = g
  skip_entry x (some md) gx g = (gx, g)

  move_entry-Good :
      (o : Filesystem) (md : MountTabDiff)
      → In o os
      → Unmatched o ns
      → Good md
      → GoodMove (move_entry o md)
  unfolding move_entry
  move_entry-Good o [] io uo g = tt
  move_entry-Good o (x ∷ md) io uo g = elim (Bool-cases (is_mount_of o.source o.id x)) [
    | inl t ↦ rw (t, GoodMove) (moved o x.action x.old_fs x.new_fs io uo t g.0, g.1)
    | inr f ↦ rw (f, GoodMove) (skip_entry x (move_entry o md) g.0 (move_entry-Good o md io uo g.1))
  ]

  add_old-Good :
      (md : MountTabDiff) (o : Filesystem) (found : Option Filesystem)
      → counterpart o ns ≡ found
      → Good md
      → In o os
      → Good (add_old md o found)
  unfolding add_old
  add_old-Good md o (some n) e g io = g
  add_old-Good md o none e g io =
      add_moved-Good (move_entry o md) (move_entry-Good o md io (counterpart-none o ns e) g)
    where
      add_moved-Good : (r : Option MountTabDiff) → GoodMove r → Good (add_moved md o r)
      add_moved-Good none x = add_entry md (some o) none umount g (io, counterpart-none o ns e)
      add_moved-Good (some md') x = x

  old_loop-Good :
      (md : MountTabDiff) (rest : List Filesystem)
      → Good md
      → ((o : Filesystem) → In o rest → In o os)
      → Good (old_loop ns md rest)
  unfolding old_loop
  old_loop-Good md [] g sub = g
  old_loop-Good md (o ∷ rest) g sub =
      old_loop-Good (add_old md o (counterpart o ns)) rest
        (add_old-Good md o (counterpart o ns) refl g (sub o (inl refl))) (λ f i. sub f (inr i))

-- a table without entries: the early returns
all_mounted-Good :
    (ns : List Filesystem) (md : MountTabDiff) (rest : List Filesystem)
    → Good [] ns md
    → ((n : Filesystem) → In n rest → In n ns)
    → Good [] ns (all_mounted md rest)
unfolding all_mounted
all_mounted-Good ns md [] g sub = g
all_mounted-Good ns md (n ∷ rest) g sub =
    all_mounted-Good ns (md ++ diff_entry none (some n) mount ∷ []) rest
      (add_entry [] ns md none (some n) mount g (sub n (inl refl), λ f i. absurd i))
      (λ f i. sub f (inr i))

all_umounted-Good :
    (os : List Filesystem) (md : MountTabDiff) (rest : List Filesystem)
    → Good os [] md
    → ((o : Filesystem) → In o rest → In o os)
    → Good os [] (all_umounted md rest)
unfolding all_umounted
all_umounted-Good os md [] g sub = g
all_umounted-Good os md (o ∷ rest) g sub =
    all_umounted-Good os (md ++ diff_entry (some o) none umount ∷ []) rest
      (add_entry os [] md (some o) none umount g (sub o (inl refl), λ f i. absurd i))
      (λ f i. sub f (inr i))

diff_entries-Good : (os ns : List Filesystem) → Good os ns (diff_entries os ns)
unfolding diff_entries
diff_entries-Good [] [] = tt
diff_entries-Good [] (n ∷ ns) = all_mounted-Good (n ∷ ns) [] (n ∷ ns) tt (λ f i. i)
diff_entries-Good (o ∷ os) [] = all_umounted-Good (o ∷ os) [] (o ∷ os) tt (λ f i. i)
diff_entries-Good (o ∷ os) (n ∷ ns) =
    old_loop-Good (o ∷ os) (n ∷ ns) (new_loop (o ∷ os) [] (n ∷ ns)) (o ∷ os)
      (new_loop-Good (o ∷ os) (n ∷ ns) [] (n ∷ ns) tt (λ f i. i)) (λ f i. i)

-- Every entry of a difference is true of the two tables: a mount names a new filesystem whose
-- source and target are not in the old table, an umount an old one that is not in the new table, a
-- remount two of the same place whose options differ, and a move an old and a new one of one
-- source and ID, neither of which has a counterpart. A missing table counts as an empty one.
pub generate_diff_sound :
    (old_tab new_tab : Option MountTab)
    → Every (IsExplained (entries_of old_tab) (entries_of new_tab)) (generate_diff old_tab new_tab)
unfolding generate_diff
generate_diff_sound old_tab new_tab = diff_entries-Good (entries_of old_tab) (entries_of new_tab)

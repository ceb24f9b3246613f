-- ===== src/Mount/Vanished.antt =====
-- A filesystem of the old table that is gone has its entry in the difference.
use node_disk_manager.Base.{
  ◌≡◌, ◌⊎◌, inl, inr, true, Option, none, some, List, [], ◌∷◌, In, arith, refl, Bool-cases,
}
use node_disk_manager.Mount.Table.{Filesystem}
use node_disk_manager.Mount.Diff.{
  is_mount_of, umount, move, DiffEntry, diff_entry, MountTabDiff, counterpart, is_mount, move_entry,
  old_loop, add_old, add_moved,
}
use node_disk_manager.Mount.Explained.{Unmatched, counterpart-Unmatched}
use node_disk_manager.Mount.Keeps.{Some, Some-last, old_loop-Some, moved_to}

-- the entry of an old filesystem that is gone
abbrev pub Vanished : Filesystem → DiffEntry → Type 0
Vanished o e = (e.old_fs ≡ some o) × ((e.action ≡ umount) ⊎ (e.action ≡ move))

pub Vanished-stable :
    (f : Filesystem) (e : DiffEntry) (o : Filesystem)
    → is_mount e.action ≡ true
    → Vanished f e
    → Vanished f (moved_to o e)
Vanished-stable f e o t a = absurd (ground arith)

abbrev VanishedMove : Filesystem → Option MountTabDiff → Type 0
VanishedMove o none = Unit
VanishedMove o (some md) = Some (Vanished o) md

skip_Vanished :
    (o : Filesystem) (x : DiffEntry) (r : Option MountTabDiff)
    → VanishedMove o r
    → VanishedMove o (elim r [ none ↦ none | some md ↦ some (x ∷ md) ])
skip_Vanished o x none h = tt
skip_Vanished o x (some md) h = inr h

move_entry-Vanished : (o : Filesystem) (md : MountTabDiff) → VanishedMove o (move_entry o md)
unfolding move_entry
move_entry-Vanished o [] = tt
move_entry-Vanished o (x ∷ md) = elim (Bool-cases (is_mount_of o.source o.id x)) [
  | inl t ↦ rw (t, VanishedMove) (inl (refl, inr refl))
  | inr f ↦ rw (f, VanishedMove) (skip_Vanished o x (move_entry o md) (move_entry-Vanished o md))
]

add_moved-Vanished :
    (md : MountTabDiff) (o : Filesystem) (r : Option MountTabDiff)
    → VanishedMove o r
    → Some (Vanished o) (add_moved md o r)
unfolding add_moved
add_moved-Vanished md o none h =
    Some-last (Vanished o) md (diff_entry (some o) none umount) (refl, inl refl)
add_moved-Vanished md o (some md') h = h

add_old-Vanished :
    (ns : List Filesystem) (md : MountTabDiff) (o : Filesystem)
    → Unmatched o ns
    → Some (Vanished o) (add_old md o (counterpart o ns))
unfolding add_old
add_old-Vanished ns md o u =
    rw (counterpart-Unmatched o ns u, add_old)
      (add_moved-Vanished md o (move_entry o md) (move_entry-Vanished o md))

pub old_loop-Vanished :
    (ns : List Filesystem) (md : MountTabDiff) (rest : List Filesystem) (o : Filesystem)
    → In o rest
    → Unmatched o ns
    → Some (Vanished o) (old_loop ns md rest)
unfolding old_loop
old_loop-Vanished ns md [] o i u = absurd i
old_loop-Vanished ns md (x ∷ rest) o (inr i) u =
    old_loop-Vanished ns (add_old md x (counterpart x ns)) rest o i u
old_loop-Vanished ns md (x ∷ rest) o (inl e) u = rw (← e) (
    old_loop-Some (Vanished o) (Vanished-stable o) ns (add_old md o (counterpart o ns)) rest
      (add_old-Vanished ns md o u))

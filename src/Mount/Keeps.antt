-- ===== src/Mount/Keeps.antt =====
-- A property of some entry of a difference, which the steps of GenerateDiff keep.
use node_disk_manager.Base.{
  ℕ, String, ◌≡◌, ◌⊎◌, inl, inr, true, Option, none, some, List, [], ◌∷◌, ◌++◌, arith, Bool-cases,
}
use node_disk_manager.Mount.Table.{Filesystem}
use node_disk_manager.Mount.Diff.{
  mount, umount, move, remount, DiffEntry, diff_entry, MountTabDiff, counterpart, options_differ,
  is_mount, is_mount_of, move_entry, new_loop, old_loop, add_new, add_old, add_moved, all_mounted,
  all_umounted,
}

abbrev pub Some {ℓ} : {A : Type ℓ} → (A → Type 0) → List A → Type 0
Some P [] = ⊥
Some P (x ∷ xs) = P x ⊎ Some P xs

pub Some-append {ℓ} : {A : Type ℓ} (P : A → Type 0) (xs ys : List A) → Some P xs → Some P (xs ++ ys)
Some-append P [] ys h = absurd h
Some-append P (x ∷ xs) ys (inl h) = inl h
Some-append P (x ∷ xs) ys (inr h) = inr (Some-append P xs ys h)

pub Some-last {ℓ} :
    {A : Type ℓ} (P : A → Type 0) (xs : List A) (y : A) → P y → Some P (xs ++ y ∷ [])
Some-last P [] y h = inl h
Some-last P (x ∷ xs) y h = inr (Some-last P xs y h)

-- what getMountEntry's caller makes of an entry
abbrev pub moved_to : Filesystem → DiffEntry → DiffEntry
moved_to o e = record e { old_fs = some o; action = move }

is_mount_of-mount :
    (source : String) (id : ℕ) (e : DiffEntry)
    → is_mount_of source id e ≡ true
    → is_mount e.action ≡ true
unfolding is_mount_of
is_mount_of-mount source id e h = ground arith

module _ (P : DiffEntry → Type 0)
    (stable : (e : DiffEntry) (o : Filesystem)
      → is_mount e.action ≡ true
      → P e
      → P (moved_to o e)) where
  abbrev SomeMove : Option MountTabDiff → Type 0
  SomeMove none = Unit
  SomeMove (some md) = Some P md

  skip_here :
      (x : DiffEntry) (r : Option MountTabDiff)
      → P x
      → SomeMove (elim r [ none ↦ none | some md ↦ some (x ∷ md) ])
  skip_here x none h = tt
  skip_here x (some md) h = inl h

  skip_there :
      (x : DiffEntry) (r : Option MountTabDiff)
      → SomeMove r
      → SomeMove (elim r [ none ↦ none | some md ↦ some (x ∷ md) ])
  skip_there x none h = tt
  skip_there x (some md) h = inr h

  move_entry-Some : (o : Filesystem) (md : MountTabDiff) → Some P md → SomeMove (move_entry o md)
  unfolding move_entry
  move_entry-Some o [] h = absurd h
  move_entry-Some o (x ∷ md) (inl h) = elim (Bool-cases (is_mount_of o.source o.id x)) [
    | inl t ↦ rw (t, SomeMove) (inl (stable x o (is_mount_of-mount o.source o.id x t) h))
    | inr f ↦ rw (f, SomeMove) (skip_here x (move_entry o md) h)
  ]
  move_entry-Some o (x ∷ md) (inr h) = elim (Bool-cases (is_mount_of o.source o.id x)) [
    | inl t ↦ rw (t, SomeMove) (inr h)
    | inr f ↦ rw (f, SomeMove) (skip_there x (move_entry o md) (move_entry-Some o md h))
  ]

  add_new-Some :
      (md : MountTabDiff) (n : Filesystem) (found : Option Filesystem)
      → Some P md
      → Some P (add_new md n found)
  unfolding add_new
  add_new-Some md n none h = Some-append P md (diff_entry none (some n) mount ∷ []) h
  add_new-Some md n (some o) h = elim (Bool-cases (options_differ o n)) [
    | inl t ↦ rw t (Some-append P md (diff_entry (some o) (some n) remount ∷ []) h)
    | inr f ↦ rw (f, add_new) h
  ]

  pub new_loop-Some :
      (os : List Filesystem) (md : MountTabDiff) (rest : List Filesystem)
      → Some P md
      → Some P (new_loop os md rest)
  unfolding new_loop
  new_loop-Some os md [] h = h
  new_loop-Some os md (n ∷ rest) h =
      new_loop-Some os (add_new md n (counterpart n os)) rest
        (add_new-Some md n (counterpart n os) h)

  add_moved-Some :
      (md : MountTabDiff) (o : Filesystem) (r : Option MountTabDiff)
      → Some P md
      → SomeMove r
      → Some P (add_moved md o r)
  unfolding add_moved
  add_moved-Some md o none h m = Some-append P md (diff_entry (some o) none umount ∷ []) h
  add_moved-Some md o (some md') h m = m

  add_old-Some :
      (md : MountTabDiff) (o : Filesystem) (found : Option Filesystem)
      → Some P md
      → Some P (add_old md o found)
  unfolding add_old
  add_old-Some md o none h = add_moved-Some md o (move_entry o md) h (move_entry-Some o md h)
  add_old-Some md o (some n) h = h

  pub old_loop-Some :
      (ns : List Filesystem) (md : MountTabDiff) (rest : List Filesystem)
      → Some P md
      → Some P (old_loop ns md rest)
  unfolding old_loop
  old_loop-Some ns md [] h = h
  old_loop-Some ns md (o ∷ rest) h =
      old_loop-Some ns (add_old md o (counterpart o ns)) rest
        (add_old-Some md o (counterpart o ns) h)

  pub all_mounted-Some :
      (md : MountTabDiff) (rest : List Filesystem) → Some P md → Some P (all_mounted md rest)
  unfolding all_mounted
  all_mounted-Some md [] h = h
  all_mounted-Some md (n ∷ rest) h =
      all_mounted-Some (md ++ diff_entry none (some n) mount ∷ []) rest
        (Some-append P md (diff_entry none (some n) mount ∷ []) h)

  pub all_umounted-Some :
      (md : MountTabDiff) (rest : List Filesystem) → Some P md → Some P (all_umounted md rest)
  unfolding all_umounted
  all_umounted-Some md [] h = h
  all_umounted-Some md (o ∷ rest) h =
      all_umounted-Some (md ++ diff_entry (some o) none umount ∷ []) rest
        (Some-append P md (diff_entry (some o) none umount ∷ []) h)

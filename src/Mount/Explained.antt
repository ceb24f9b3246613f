-- ===== src/Mount/Explained.antt =====
-- What an entry of a difference is to say of the two tables, and how the entries are found.
use node_disk_manager.Base.{
  inr, ◌↔◌, inl, Option-cases, ◌≡◌, ◌≢◌, ◌⊎◌, Bool, true, Option, none, some, List, [], ◌∷◌, ◌++◌,
  In, In-find_first, find_first-none, eq_iff, arith,
}
use node_disk_manager.Mount.Table.{all_filters, Filesystem, source_filter, target_filter}
use node_disk_manager.Mount.Diff.{MountAction, mount, umount, move, remount, DiffEntry, counterpart}

-- The same source is mounted on the same target.
abbrev pub SamePlace : Filesystem → Filesystem → Type 0
SamePlace a b = (a.source ≡ b.source) × (a.target ≡ b.target)

abbrev pub Unmatched : Filesystem → List Filesystem → Type 0
Unmatched f l = (g : Filesystem) → In g l → ¬ SamePlace g f

abbrev pub OptionsDiffer : Filesystem → Filesystem → Type 0
OptionsDiffer o n = (o.vfs_opts ≢ n.vfs_opts) ⊎ (o.fs_opts ≢ n.fs_opts)

-- The entry's action is what happened to the filesystems that it names.
abbrev pub Explains :
    List Filesystem → List Filesystem → MountAction → Option Filesystem → Option Filesystem → Type 0
Explains os ns mount none (some n) = In n ns × Unmatched n os
Explains os ns umount (some o) none = In o os × Unmatched o ns
Explains os ns remount (some o) (some n) = In o os × In n ns × SamePlace o n × OptionsDiffer o n
Explains os ns move (some o) (some n) =
    In o os × In n ns × Unmatched o ns × Unmatched n os × (o.source ≡ n.source) × (o.id ≡ n.id)
Explains os ns _ _ _ = ⊥

abbrev pub Every {ℓ κ} : {A : Type ℓ} → (A → Type κ) → List A → Type κ
Every P [] = Unit
Every P (x ∷ xs) = P x × Every P xs

pub Every-append {ℓ κ} :
    {A : Type ℓ} (P : A → Type κ) (xs ys : List A) → Every P xs → Every P ys → Every P (xs ++ ys)
Every-append P [] ys hx hy = hy
Every-append P (x ∷ xs) ys hx hy = (hx.0, Every-append P xs ys hx.1 hy)

abbrev pub IsExplained : List Filesystem → List Filesystem → DiffEntry → Type 0
IsExplained os ns e = Explains os ns e.action e.old_fs e.new_fs

abbrev same_place : Filesystem → Filesystem → Bool
same_place f = all_filters true (source_filter f.source ∷ target_filter f.target ∷ [])

same_place_iff : (f g : Filesystem) → (same_place f g ≡ true) ↔ SamePlace g f
unfolding all_filters
same_place_iff f g = ground (arith, eq_iff g.source f.source, eq_iff g.target f.target)

pub counterpart-some :
    (f : Filesystem) (l : List Filesystem) (g : Filesystem)
    → counterpart f l ≡ some g
    → In g l × SamePlace g f
unfolding counterpart
counterpart-some f l g h =
    let found = In-find_first (same_place f) g l h in (found.0, (same_place_iff f g).0 found.1)

pub counterpart-none :
    (f : Filesystem) (l : List Filesystem) → counterpart f l ≡ none → Unmatched f l
unfolding counterpart
counterpart-none f l h g m s = cc ((same_place_iff f g).1 s, find_first-none (same_place f) g l h m)

pub counterpart-Unmatched :
    (f : Filesystem) (l : List Filesystem) → Unmatched f l → counterpart f l ≡ none
counterpart-Unmatched f l u = elim (Option-cases (counterpart f l)) [
  | inl e ↦ e
  | inr (g, e) ↦ absurd (let c = counterpart-some f l g e in u g c.0 c.1)
]

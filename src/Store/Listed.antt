-- ===== src/Store/Listed.antt =====
-- What the loop of ListBlockDeviceResource keeps.
use node_disk_manager.Base.{◌≡◌, true, false, List, [], ◌∷◌, In, inl, inr, Bool-cases, arith}
use node_disk_manager.Api.{BlockDevice}
use node_disk_manager.Store.{drop_disabled, is_disabled}

-- Every device that the loop keeps is in the list.
pub drop_disabled-In :
    (bds : List BlockDevice) (bd : BlockDevice) → In bd (drop_disabled bds) → In bd bds
unfolding drop_disabled
drop_disabled-In [] bd m = m
drop_disabled-In (x ∷ []) bd m = ground arith
drop_disabled-In (x ∷ y ∷ rest) bd m =
    ground (arith, drop_disabled-In rest bd, drop_disabled-In (y ∷ rest) bd)

not_both : (bd x : BlockDevice) → bd ≡ x → is_disabled bd ≡ false → is_disabled x ≡ true → ⊥
not_both bd x is_x e d = let off : is_disabled x ≡ false = rw is_x at e in absurd (cc)

-- The loop of ListBlockDeviceResource keeps every device of the list that is not disabled.
pub In-drop_disabled :
    (bds : List BlockDevice) (bd : BlockDevice)
    → In bd bds
    → is_disabled bd ≡ false
    → In bd (drop_disabled bds)
unfolding drop_disabled
In-drop_disabled [] bd m e = m
In-drop_disabled (x ∷ []) bd m e = elim (Bool-cases (is_disabled x)) [
  | inl d ↦ elim m [ inl is_x ↦ absurd (not_both bd x is_x e d) | inr none_left ↦ absurd none_left ]
  | inr n ↦ rw n m
]
In-drop_disabled (x ∷ y ∷ rest) bd m e = elim (Bool-cases (is_disabled x)) [
  | inl d ↦ rw d (elim m [
    | inl is_x ↦ absurd (not_both bd x is_x e d)
    | inr (inl is_y) ↦ inl is_y
    | inr (inr later) ↦ inr (In-drop_disabled rest bd later e)
  ])
  | inr n ↦
      rw n
        (elim m [ inl is_x ↦ inl is_x | inr later ↦ inr (In-drop_disabled (y ∷ rest) bd later e) ])
]

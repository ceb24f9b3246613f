-- ===== src/Base/Maps.antt =====
-- A Go map with string keys as an association list: reads take the first entry of a key, so the
-- order of the entries shows only to code that ranges over the map.
use Prim.Native.String.{String}
use mathlib.Core.Path.{◌≡◌}
use mathlib.Core.Option.{Option, none, some}
use mathlib.Core.List.{List, [], ◌∷◌}
use native.Mathlib.Omega.{arith}
use text.Mathlib.Text.{◌==◌}
use text.Mathlib.TextEquality.{eq_iff}
use node_disk_manager.Base.Tests.{if◌then◌else◌}

abbrev pub StringMap {ℓ} : Type ℓ → Type ℓ
StringMap V = List (String × V)

module _ {ℓ} {V : Type ℓ} where
  -- `v, ok := mp[key]`
  unfoldable pub lookup : String → StringMap V → Option V
  lookup key [] = none
  lookup key ((other, value) ∷ mp) = if other == key then some value else lookup key mp

  -- `mp[key] = value`
  unfoldable pub insert : String → V → StringMap V → StringMap V
  insert key value [] = (key, value) ∷ []
  insert key value ((other, old) ∷ mp) =
      let rest = insert key value mp in
      if other == key then (other, value) ∷ mp else (other, old) ∷ rest

  -- `delete(mp, key)`
  unfoldable pub erase : String → StringMap V → StringMap V
  erase key [] = []
  erase key ((other, value) ∷ mp) =
      let rest = erase key mp in if other == key then rest else (other, value) ∷ rest

  -- `for key, value := range news { mp[key] = value }`
  unfoldable pub merge : StringMap V → StringMap V → StringMap V
  merge [] mp = mp
  merge ((key, value) ∷ news) mp = insert key value (merge news mp)

  -- `mp[key]`, with the zero value where the key is missing
  abbrev pub get_or : Option V → V → V
  get_or none zero_value = zero_value
  get_or (some value) _ = value

  pub lookup-insert :
      (key wanted : String) (value : V) (mp : StringMap V)
      → lookup wanted (insert key value mp)
        ≡ (if key == wanted then some value else lookup wanted mp)
  unfolding insert lookup
  lookup-insert key wanted value [] = ground arith
  lookup-insert key wanted value ((other, old) ∷ mp) = ground (
    arith,
    lookup-insert key wanted value mp,
    eq_iff other key,
    eq_iff key wanted,
    eq_iff other wanted,
  )

  pub lookup-erase :
      (key wanted : String) (mp : StringMap V)
      → lookup wanted (erase key mp) ≡ (if key == wanted then none else lookup wanted mp)
  unfolding erase lookup
  lookup-erase key wanted [] = ground arith
  lookup-erase key wanted ((other, old) ∷ mp) =
      ground (
        arith,
        eq_iff key wanted,
        eq_iff other wanted,
        lookup-erase key wanted mp,
        eq_iff other key,
      )

  -- A new key is added and an old key takes the new value.
  pub lookup-merge :
      (wanted : String) (news mp : StringMap V)
      → lookup wanted (merge news mp)
        ≡ elim (lookup wanted news) [ none ↦ lookup wanted mp | some value ↦ some value ]
  unfolding lookup merge
  lookup-merge wanted [] mp = ground arith
  lookup-merge wanted ((key, value) ∷ news) mp =
      ground (arith, lookup-insert key wanted value (merge news mp), lookup-merge wanted news mp)

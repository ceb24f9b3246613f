-- ===== src/Base/Lists.antt =====
-- Lists over the native numbers, membership by recursion, and the loops that filter or search.
use Prim.Native.Nat.{ℕ, suc}
use mathlib.Core.Path.{◌≡◌, refl}
use mathlib.Core.Logic.{inr, inl, ◌⊎◌, ◌≢◌, ◌↔◌}
use mathlib.Core.Bool.{Bool, true, false}
use mathlib.Core.Option.{Option, none, some}
use mathlib.Core.List.{◌++◌, List, [], ◌∷◌}
use native.Mathlib.Omega.{arith}
use node_disk_manager.Base.Tests.{if◌then◌else◌}

module _ {ℓ} {A : Type ℓ} where
  abbrev pub length : List A → ℕ
  length [] = 0
  length (x ∷ xs) = suc (length xs)

  -- `for _, x := range xs { if p(x) { out = append(out, x) } }`
  abbrev pub keep : (A → Bool) → List A → List A
  keep p [] = []
  keep p (x ∷ xs) = let rest = keep p xs in if p x then x ∷ rest else rest

  -- `for _, x := range xs { if p(x) { return x } }; return nil`
  abbrev pub find_first : (A → Bool) → List A → Option A
  find_first p [] = none
  find_first p (x ∷ xs) = if p x then some x else find_first p xs

  pub List-cases : (xs : List A) → (xs ≡ []) ⊎ ((x : A) × (rest : List A) × (xs ≡ x ∷ rest))
  List-cases [] = inl refl
  List-cases (x ∷ xs) = inr (x, xs, refl)

module _ {A : Type 0} where
  -- Membership that the tactics can take apart.
  abbrev pub In : A → List A → Type 0
  In a [] = ⊥
  In a (x ∷ xs) = (a ≡ x) ⊎ In a xs

  pub In-keep : (p : A → Bool) (a : A) (xs : List A) → In a (keep p xs) → In a xs × (p a ≡ true)
  In-keep p a [] h = absurd h
  In-keep p a (x ∷ xs) h = ground (arith, In-keep p a xs)

  pub keep-In : (p : A → Bool) (a : A) (xs : List A) → In a xs → p a ≡ true → In a (keep p xs)
  keep-In p a [] h t = absurd h
  keep-In p a (x ∷ xs) h t = ground (arith, keep-In p a xs)

  pub In-find_first :
      (p : A → Bool) (a : A) (xs : List A) → find_first p xs ≡ some a → In a xs × (p a ≡ true)
  In-find_first p a [] h = ground arith
  In-find_first p a (x ∷ xs) h = ground (arith, In-find_first p a xs)

  -- The search fails only where no element passes.
  pub find_first-none :
      (p : A → Bool) (a : A) (xs : List A) → find_first p xs ≡ none → In a xs → p a ≡ false
  find_first-none p a [] h m = absurd m
  find_first-none p a (x ∷ xs) h m = ground (arith, find_first-none p a xs)

  -- An element that passes makes the search succeed.
  pub find_first-ne-none :
      (p : A → Bool) (a : A) (xs : List A) → In a xs → p a ≡ true → find_first p xs ≢ none
  find_first-ne-none p a xs m t e = cc (find_first-none p a xs e m)

  pub keep_iff :
      {P : Type 0} (p : A → Bool) (a : A) (xs : List A)
      → (p a ≡ true) ↔ P
      → In a (keep p xs) ↔ (In a xs × P)
  keep_iff p a xs h =
      (λ m. ((In-keep p a xs m).0, h.0 (In-keep p a xs m).1), λ m. keep-In p a xs m.0 (h.1 m.1))

  pub keep_mem : (p : A → Bool) (a : A) (xs : List A) → In a (keep p xs) ↔ (In a xs × (p a ≡ true))
  keep_mem p a xs = keep_iff p a xs (λ h. h, λ h. h)

  pub In-append : (a : A) (xs ys : List A) → In a xs → In a (xs ++ ys)
  In-append a [] ys m = absurd m
  In-append a (x ∷ xs) ys (inl e) = inl e
  In-append a (x ∷ xs) ys (inr m) = inr (In-append a xs ys m)

  pub In-snoc : (a : A) (xs : List A) → In a (xs ++ a ∷ [])
  In-snoc a [] = inl refl
  In-snoc a (x ∷ xs) = inr (In-snoc a xs)

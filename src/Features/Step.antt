-- ===== src/Features/Step.antt =====
-- One call of ValidateDependencies.
use node_disk_manager.Base.{
  ◌∷◌, [], ◌∙◌, Bool-cases, sym, Option-cases, ℕ, suc, String, ◌≡◌, ◌≢◌, ◌⊎◌, inl, inr, Bool, true,
  false, ◌&&◌, Option, none, some, lookup, insert, lookup-insert, eq_iff, ◌==◌, arith,
  if◌then◌else◌,
}
use mathlib.Core.Path.{subst}
use node_disk_manager.Features.Gates.{
  gpt_based_uuid, partition_table_uuid, dependencies, FeatureFlag, is_enabled, Memo,
  check_dependencies, memoize, validate_dependencies,
}

-- What the gate of a feature is to be: it was asked for, and so were its dependencies.
abbrev pub resolved : FeatureFlag → String → Bool
resolved fg f =
    is_enabled f fg && (if f == partition_table_uuid then is_enabled gpt_based_uuid fg else true)

-- Between two calls, for the flags `fg` at the start; `seen` says that the gate with a dependency
-- has been validated.
pub record Holds (fg : FeatureFlag) (seen : Bool) (m : Memo) : Type 0 where
  pub others : (f : String) → f ≢ partition_table_uuid → is_enabled f m.flags ≡ is_enabled f fg
  pub dependent :
      (is_enabled partition_table_uuid m.flags ≡ is_enabled partition_table_uuid fg)
      ⊎ (is_enabled partition_table_uuid m.flags ≡ resolved fg partition_table_uuid)
  pub answers : (f : String) (v : Bool) → lookup f m.memoized ≡ some v → v ≡ resolved fg f
  pub settled :
      (v : Bool)
      → lookup partition_table_uuid m.memoized ≡ some v
      → is_enabled partition_table_uuid m.flags ≡ resolved fg partition_table_uuid
  pub validated :
      seen ≡ true → is_enabled partition_table_uuid m.flags ≡ resolved fg partition_table_uuid

-- The answer of a call is the resolved gate, which the flags then hold.
abbrev pub Answers : FeatureFlag → Bool → String → Option (Bool × Memo) → Type 0
Answers fg seen f none = ⊥
Answers fg seen f (some (v, m)) =
    (v ≡ resolved fg f) × Holds fg seen m × (is_enabled f m.flags ≡ resolved fg f)

module _ (fg : FeatureFlag) (seen : Bool) (f : String) (m : Memo) (h : Holds fg seen m) where
  memoize_Holds : is_enabled f m.flags ≡ resolved fg f → Answers fg seen f (memoize f (some m))
  unfolding memoize
  memoize_Holds e = (
    e,
    record {
      others = h.others;
      dependent = h.dependent;
      answers = λ j v l.
          ground
            (arith, lookup-insert f j (is_enabled f m.flags) m.memoized, eq_iff f j, h.answers j v);
      settled = λ v l. ground (
        arith,
        lookup-insert f partition_table_uuid (is_enabled f m.flags) m.memoized,
        eq_iff f partition_table_uuid,
        h.settled v,
      );
      validated = h.validated;
    },
    e,
  )

  -- a memoized answer
  known-Answers : (v : Bool) → lookup f m.memoized ≡ some v → Answers fg seen f (some (v, m))
  known-Answers v e =
      (h.answers f v e, h, ground (arith, eq_iff f partition_table_uuid, h.others f, h.settled v))

  -- a feature that is off
  off-Answers : is_enabled f m.flags ≡ false → Answers fg seen f (some (false, m))
  off-Answers e =
      let off : resolved fg f ≡ false =
        ground (arith, eq_iff f partition_table_uuid, h.others f, h.dependent) in
      (sym off, h, e ∙ sym off)

  -- the three ways through the body
  by_memo :
      (fuel : ℕ) (v : Bool)
      → lookup f m.memoized ≡ some v
      → validate_dependencies (suc fuel) f m ≡ some (v, m)
  unfolding validate_dependencies
  by_memo fuel v e = ground arith

  by_flag :
      (fuel : ℕ)
      → lookup f m.memoized ≡ none
      → is_enabled f m.flags ≡ false
      → validate_dependencies (suc fuel) f m ≡ some (false, m)
  unfolding validate_dependencies
  by_flag fuel e off = ground arith

  by_dependencies :
      (fuel : ℕ)
      → lookup f m.memoized ≡ none
      → is_enabled f m.flags ≡ true
      → validate_dependencies (suc fuel) f m
        ≡ memoize f (check_dependencies (validate_dependencies fuel) f (dependencies f) m)
  unfolding validate_dependencies
  by_dependencies fuel e on = ground arith

  -- a call needs a case only where the feature is on and has no memoized answer
  split-Answers :
      (fuel : ℕ)
      → (is_enabled f m.flags ≡ true
          → Answers fg seen f
              (memoize f (check_dependencies (validate_dependencies fuel) f (dependencies f) m)))
      → Answers fg seen f (validate_dependencies (suc fuel) f m)
  split-Answers fuel rest = elim (Option-cases (lookup f m.memoized)) [
    | inr (v, e) ↦ subst (Answers fg seen f) (sym (by_memo fuel v e)) (known-Answers v e)
    | inl e ↦ elim (Bool-cases (is_enabled f m.flags)) [
      | inl on ↦ subst (Answers fg seen f) (sym (by_dependencies fuel e on)) (rest on)
      | inr off ↦ subst (Answers fg seen f) (sym (by_flag fuel e off)) (off-Answers off)
    ]
  ]

module _ (fg : FeatureFlag) (seen : Bool) (m : Memo) (h : Holds fg seen m) where
  independent-Answers :
      (f : String) (fuel : ℕ)
      → f ≢ partition_table_uuid
      → Answers fg seen f (validate_dependencies (suc fuel) f m)
  independent-Answers f fuel n = split-Answers fg seen f m h fuel λ on.
      subst
        (λ ds.
          Answers fg seen f (memoize f (check_dependencies (validate_dependencies fuel) f ds m)))
        (sym no_dependencies)
        (unfold check_dependencies in
          memoize_Holds fg seen f m h (ground (arith, h.others f n, eq_iff f partition_table_uuid)))
    where
      no_dependencies : dependencies f ≡ []
      no_dependencies = unfold dependencies in ground (arith, eq_iff f partition_table_uuid)

  -- what switching the dependent feature off does
  off_Holds :
      is_enabled gpt_based_uuid fg ≡ false
      → Holds fg seen (record m { flags = insert partition_table_uuid false m.flags })
        × (is_enabled partition_table_uuid (insert partition_table_uuid false m.flags) ≡ false)
  unfolding is_enabled
  off_Holds e = (
    record {
      others = λ f n. ground (
        arith,
        lookup-insert partition_table_uuid f false m.flags,
        eq_iff partition_table_uuid f,
        h.others f,
      );
      dependent = inr (
          ground (arith, lookup-insert partition_table_uuid partition_table_uuid false m.flags, e));
      answers = h.answers;
      settled = λ v l.
          ground (arith, lookup-insert partition_table_uuid partition_table_uuid false m.flags, e);
      validated = λ _.
          ground (arith, lookup-insert partition_table_uuid partition_table_uuid false m.flags, e);
    },
    ground (arith, lookup-insert partition_table_uuid partition_table_uuid false m.flags),
  )

-- what the answer for the dependency does to the feature that depends on it
dependent-Answers :
    (fg : FeatureFlag) (seen : Bool) (m : Memo) (r : Option (Bool × Memo))
    → Answers fg seen gpt_based_uuid r
    → Answers fg seen partition_table_uuid (
        memoize partition_table_uuid
          (check_dependencies (λ _ _. r) partition_table_uuid (gpt_based_uuid ∷ []) m))
unfolding check_dependencies
dependent-Answers fg seen m none a = absurd a
dependent-Answers fg seen m (some (true, m')) a =
    memoize_Holds fg seen partition_table_uuid m' a.1 (ground (arith, a.0, a.1.dependent))
dependent-Answers fg seen m (some (false, m')) a =
    let m'' : Memo = record m' { flags = insert partition_table_uuid false m'.flags } in
    let off = off_Holds fg seen m' a.1 (ground (arith, a.0)) in
    memoize_Holds fg seen partition_table_uuid m'' off.0 (off.1 ∙ ground (arith, a.0))

-- Two units of fuel answer for every feature, with its resolved gate.
pub validate-Answers :
    (fg : FeatureFlag) (seen : Bool) (fuel : ℕ) (f : String) (m : Memo)
    → Holds fg seen m
    → Answers fg seen f (validate_dependencies (suc (suc fuel)) f m)
validate-Answers fg seen fuel f m h = elim (Bool-cases (f == partition_table_uuid)) [
  | inr n ↦
      independent-Answers fg seen m h f (suc fuel) (λ p. cc ((eq_iff f partition_table_uuid).1 p))
  | inl e ↦
      subst (λ g. Answers fg seen g (validate_dependencies (suc (suc fuel)) g m))
        (sym ((eq_iff f partition_table_uuid).0 e))
        (split-Answers fg seen partition_table_uuid m h (suc fuel) λ _.
          unfold dependencies check_dependencies in
          dependent-Answers fg seen m (validate_dependencies (suc fuel) gpt_based_uuid m) (
            independent-Answers fg seen m h gpt_based_uuid fuel
              (λ p. cc ((eq_iff gpt_based_uuid partition_table_uuid).1 p))))
]

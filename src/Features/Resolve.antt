-- ===== src/Features/Resolve.antt =====
-- SetFeatureFlag ends with every gate resolved, whatever the order in which the map is ranged over.
use mathlib.Core.Path.{refl, subst, sym}
use node_disk_manager.Features.Step.{Holds, Answers, resolved, validate-Answers}
use node_disk_manager.Features.Gates.{
  validate_all, partition_table_uuid, FeatureFlag, Memo, set_flags, set_feature_flag, is_enabled,
  FlagError, validate_dependencies,
}
use node_disk_manager.Base.{
  sym, ◌==◌, Bool-cases, ℕ, suc, String, ◌≡◌, ◌≢◌, inl, inr, Bool, true, false, Option, none, some,
  List, [], ◌∷◌, In, eq_iff, arith, lookup,
}

-- the result of the second loop
abbrev Resolved : FeatureFlag → List String → Bool → Option Memo → Type 0
Resolved fg keys seen none = ⊥
Resolved fg keys seen (some m) =
    Holds fg seen m
    × (In partition_table_uuid keys
        → is_enabled partition_table_uuid m.flags ≡ resolved fg partition_table_uuid)

-- One key, with the rest of the loop as an argument.
resolve_step :
    (fg : FeatureFlag) (f : String) (keys : List String) (seen : Bool) (rest : Memo → Option Memo)
    (rest_resolves : (s : Bool) (m : Memo) → Holds fg s m → Resolved fg keys s (rest m))
    (answer : Option (Bool × Memo))
    → Answers fg seen f answer
    → Resolved fg (f ∷ keys) seen (elim answer [ none ↦ none | some (_, m') ↦ rest m' ])
resolve_step fg f keys seen rest rr none a = absurd a
resolve_step fg f keys seen rest rr (some (v, m)) (_, h, now) =
    elim (Bool-cases (f == partition_table_uuid)) [
      | inr n ↦
          add_other (rest m) (rr seen m h) (λ e. cc ((eq_iff f partition_table_uuid).1 (sym e)))
      | inl e ↦ add_dependent (rest m) (
          rr true m (record {
            others = h.others;
            dependent = h.dependent;
            answers = h.answers;
            settled = h.settled;
            validated = λ _.
                subst (λ g. is_enabled g m.flags ≡ resolved fg g)
                  ((eq_iff f partition_table_uuid).0 e) now;
          }))
    ]
  where
    add_other :
        (r : Option Memo)
        → Resolved fg keys seen r
        → partition_table_uuid ≢ f
        → Resolved fg (f ∷ keys) seen r
    add_other none x n = x
    add_other (some m') (h', i) n = (h', elim [ inl e ↦ absurd (n e) | inr j ↦ i j ])

    add_dependent : (r : Option Memo) → Resolved fg keys true r → Resolved fg (f ∷ keys) seen r
    add_dependent none x = x
    add_dependent (some m') (h', i) = (
      record {
        others = h'.others;
        dependent = h'.dependent;
        answers = h'.answers;
        settled = h'.settled;
        validated = λ _. h'.validated refl;
      },
      λ _. h'.validated refl,
    )

validate_all_resolves :
    (fg : FeatureFlag) (fuel : ℕ) (keys : List String) (seen : Bool) (m : Memo)
    → Holds fg seen m
    → Resolved fg keys seen (validate_all (suc (suc fuel)) keys m)
unfolding validate_all
validate_all_resolves fg fuel [] seen m h = (h, λ i. absurd i)
validate_all_resolves fg fuel (f ∷ keys) seen m h =
    resolve_step fg f keys seen (validate_all (suc (suc fuel)) keys)
      (validate_all_resolves fg fuel keys) (validate_dependencies (suc (suc fuel)) f m)
      (validate-Answers fg seen fuel f m h)

start_Holds : (fg : FeatureFlag) → Holds fg false (record { flags = fg; memoized = [] })
unfolding lookup
start_Holds fg = record {
  others = λ f n. refl;
  dependent = inl refl;
  answers = λ f v e. cc;
  settled = λ v e. cc;
  validated = λ e. cc;
}

resolved_everywhere :
    (fg : FeatureFlag) (keys : List String) (r : Option Memo)
    → In partition_table_uuid keys
    → Resolved fg keys false r
    → (g : FeatureFlag) × (elim r as (λ _. Option (FeatureFlag × Option FlagError)) [
      | none ↦ none
      | some m ↦ some (m.flags, none)
    ]
        ≡ some (g, none))
      × ((f : String) → is_enabled f g ≡ resolved fg f)
resolved_everywhere fg keys none i x = absurd x
resolved_everywhere fg keys (some m) i (h, ptu) =
    (m.flags, refl, λ f. ground (arith, eq_iff f partition_table_uuid, h.others f, ptu i))

-- Where every element of the slice parses, SetFeatureFlag returns no error, on two units of fuel or
-- more and for any order of the keys that has the gate with a dependency; each gate is then on
-- exactly if its last setting is on and, for PartitionTableUUID, that of GPTBasedUUID is on too.
pub set_feature_flag_resolves :
    (fuel : ℕ) (keys features : List String) (fg set : FeatureFlag)
    → In partition_table_uuid keys
    → set_flags features fg ≡ (set, none)
    → (g : FeatureFlag) × (set_feature_flag (suc (suc fuel)) keys features fg ≡ some (g, none))
      × ((f : String) → is_enabled f g ≡ resolved set f)
unfolding set_feature_flag
set_feature_flag_resolves fuel keys features fg set i e = rw e (
    resolved_everywhere set keys _ i (
      validate_all_resolves set fuel keys false (record { flags = set; memoized = [] })
        (start_Holds set)))

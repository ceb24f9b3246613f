-- ===== src/Lifecycle/Held.antt =====
-- How a device leaves its claim, and how it becomes free again. The write that does
-- this is looked for in a sequence of accepted writes, with the run that performs it.
use node_disk_manager.Base.{◌≢◌, ◌≡◌, ◌⊎◌, inl, inr, sym, ap, ◌∙◌, some}
use node_disk_manager.Api.{
  BlockDevice, BlockDeviceClaim, DeviceStatus, DeviceSpec, ObjectReference, released,
}
use node_disk_manager.Select.Eligible.{BuildsTagRequirement}
use node_disk_manager.Claim.Allowed.{HeldBy, RefersTo}
use node_disk_manager.Lifecycle.{Setting, stored, Steps, stop, step, Step}
use node_disk_manager.Lifecycle.Effects.{
  FreedFrom, Recycled, Effect, taken, freed, recycled, protected, kept, Step-Effect,
}

one_claim :
    (c d : BlockDeviceClaim) (bd : BlockDevice)
    → HeldBy c bd
    → HeldBy d bd
    → c.meta.uid ≡ d.meta.uid
one_claim c d bd (_, r, e, by) (_, q, f, of) =
    let same : some r ≡ some q = sym e ∙ f in
    let is_same : r ≡ q = cc in
    sym by.same_uid ∙ ap (λ (x : ObjectReference). x.uid) is_same ∙ of.same_uid

module _ (s : Setting) where
  -- The write frees the device from a claim with the uid of this one.
  abbrev pub IsFreeing :
      BlockDeviceClaim → (before after : BlockDevice) → Step s before after → Type 0
  IsFreeing bdc before after now =
      (by : BlockDeviceClaim) × FreedFrom s before after by now × (by.meta.uid ≡ bdc.meta.uid)

  Effect-HeldBy :
      (bdc : BlockDeviceClaim) (before after : BlockDevice) (now : Step s before after)
      → HeldBy bdc before
      → Effect s before after now
      → HeldBy bdc after ⊎ IsFreeing bdc before after now
  Effect-HeldBy bdc before after now (is, r, e, refers) (taken by t) =
      let u = t.2.0.is_unclaimed in absurd (cc)
  Effect-HeldBy bdc before after now held (freed by f) =
      inr (by, f, one_claim by bdc before f.1.3 held)
  Effect-HeldBy bdc before after now (is, r, e, refers) (recycled (h, _, y)) =
      let was = y.0 in absurd (cc)
  Effect-HeldBy bdc before after now (is, r, e, refers) (protected (_, _, _, st, sp)) = inl (
    ap (λ (x : DeviceStatus). x.claim_state) st ∙ is,
    r,
    ap (λ (x : DeviceSpec). x.claim_ref) sp ∙ e,
    refers,
  )
  Effect-HeldBy bdc before after now (is, r, e, refers) (kept k) = elim k.same_reference [
    | inl free ↦ absurd (cc)
    | inr same ↦ inl (k.same_claim_state ∙ is, r, same ∙ e, refers)
  ]

  Effect-released :
      (before after : BlockDevice) (now : Step s before after)
      → before.status.claim_state ≡ released
      → Effect s before after now
      → (after.status.claim_state ≡ released) ⊎ Recycled s before after now
  Effect-released before after now is (taken by t) = let u = t.2.0.is_unclaimed in absurd (cc)
  Effect-released before after now is (freed by f) = let c = f.1.3.0 in absurd (cc)
  Effect-released before after now is (recycled r) = inr r
  Effect-released before after now is (protected p) = let c = p.0 in absurd (cc)
  Effect-released before after now is (kept k) = inl (k.same_claim_state ∙ is)

  -- One of these writes frees the device from the claim.
  abbrev pub WasFreed : BlockDeviceClaim → (first last : BlockDevice) → Steps s first last → Type 0
  WasFreed bdc first last (stop _) = ⊥
  WasFreed bdc first last (step _ sent _ version now rest) =
      IsFreeing bdc first sent now ⊎ WasFreed bdc (stored version sent) last rest

  -- One of these writes makes the device free after its cleanup.
  abbrev pub WasRecycled : (first last : BlockDevice) → Steps s first last → Type 0
  WasRecycled first last (stop _) = ⊥
  WasRecycled first last (step _ sent _ version now rest) =
      Recycled s first sent now ⊎ WasRecycled (stored version sent) last rest

  -- One of these writes frees the device from the claim, and a later one of them makes it free after
  -- its cleanup.
  abbrev pub WasCleanedAfter :
      BlockDeviceClaim → (first last : BlockDevice) → Steps s first last → Type 0
  WasCleanedAfter bdc first last (stop _) = ⊥
  WasCleanedAfter bdc first last (step _ sent _ version now rest) =
      (IsFreeing bdc first sent now × WasRecycled (stored version sent) last rest)
      ⊎ WasCleanedAfter bdc (stored version sent) last rest

  module _ (builds : BuildsTagRequirement s.does_not_exist)
      (refers : (bdc : BlockDeviceClaim) (ref : ObjectReference)
        → s.reference bdc ≡ some ref
        → RefersTo bdc ref) where
    -- A device that a claim holds is held by it after any sequence of accepted writes of the two
    -- reconcilers and the daemon, or one of these writes frees it: a write of a Reconcile of claims that
    -- had read this claim, or one with its uid, as bound, being deleted and with no finalizer but its
    -- own. It assumes that GetReference returns a reference to its object, and that the DoesNotExist
    -- requirement is built.
    pub held_until_freed :
        (bdc : BlockDeviceClaim) (first last : BlockDevice) (steps : Steps s first last)
        → HeldBy bdc first
        → HeldBy bdc last ⊎ WasFreed bdc first last steps
    held_until_freed bdc first last (stop _) held = inl held
    held_until_freed bdc first last (step _ sent _ version now rest) held =
        elim (Effect-HeldBy bdc first sent now held (Step-Effect s builds refers first sent now)) [
          | inr f ↦ inr (inl f)
          | inl still ↦ elim (held_until_freed bdc (stored version sent) last rest still) [
            | inl to_the_end ↦ inl to_the_end
            | inr later ↦ inr (inr later)
          ]
        ]

    -- A released device is still released after any sequence of accepted writes of the two
    -- reconcilers and the daemon, or one of these writes makes it free: a write of a Reconcile of
    -- devices that had read the device's cleanup job as succeeded and deleted a job. It assumes that
    -- GetReference returns a reference to its object, and that the DoesNotExist requirement is built.
    pub released_until_recycled :
        (first last : BlockDevice) (steps : Steps s first last)
        → first.status.claim_state ≡ released
        → (last.status.claim_state ≡ released) ⊎ WasRecycled first last steps
    released_until_recycled first last (stop _) is = inl is
    released_until_recycled first last (step _ sent _ version now rest) is =
        elim (Effect-released first sent now is (Step-Effect s builds refers first sent now)) [
          | inr r ↦ inr (inl r)
          | inl still ↦ elim (released_until_recycled (stored version sent) last rest still) [
            | inl to_the_end ↦ inl to_the_end
            | inr later ↦ inr (inr later)
          ]
        ]

    -- A device that a claim holds before a sequence of accepted writes of the two reconcilers and the
    -- daemon, and a claim with another uid after it, is cleaned in between: one of these writes frees it
    -- from the first claim, and a later one of them makes it free, the one by a Reconcile of claims that
    -- had read the first claim, or one with its uid, as bound, being deleted and with no finalizer but
    -- its own, the other by a Reconcile of devices that had read the cleanup job as succeeded. It assumes
    -- that GetReference returns a reference to its object, and that the DoesNotExist requirement is built.
    pub cleaned_before_next_claim :
        (bdc other : BlockDeviceClaim) (first last : BlockDevice) (steps : Steps s first last)
        → HeldBy bdc first
        → HeldBy other last
        → bdc.meta.uid ≢ other.meta.uid
        → WasCleanedAfter bdc first last steps
    cleaned_before_next_claim bdc other first last (stop _) held next differ =
        absurd (differ (one_claim bdc other last held next))
    cleaned_before_next_claim bdc other first last (step _ sent _ version now rest) held next
          differ =
        elim (Effect-HeldBy bdc first sent now held (Step-Effect s builds refers first sent now)) [
          | inl still ↦ inr (
              cleaned_before_next_claim bdc other (stored version sent) last rest still next differ)
          | inr f ↦ elim (released_until_recycled (stored version sent) last rest f.1.1.4) [
            | inl dirty ↦ let c = next.0 in absurd (cc)
            | inr later ↦ inl (f, later)
          ]
        ]

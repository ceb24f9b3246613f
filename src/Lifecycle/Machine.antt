-- ===== src/Lifecycle/Machine.antt =====
-- The life of a device as a state machine of three states, and the states that a sequence of accepted
-- writes goes through.
use node_disk_manager.Base.{
  List, [], ◌∷◌, String, Option, none, some, ◌≡◌, ◌⊎◌, inl, inr, refl, sym, ap, ◌∙◌,
}
use node_disk_manager.Api.{
  BlockDevice, BlockDeviceClaim, ClaimState, unclaimed, claimed, released, ObjectReference,
}
use node_disk_manager.Select.Eligible.{BuildsTagRequirement}
use node_disk_manager.Claim.Allowed.{RefersTo}
use node_disk_manager.Lifecycle.{stored, Setting, Steps, stop, step, Step}
use node_disk_manager.Lifecycle.Effects.{
  Effect, taken, freed, recycled, protected, kept, Step-Effect,
}

-- A device is free, or held by the claim with a uid, or still has the data of its last claim.
pub data View : Type 0 where
  free dirty : View
  held : Option String → View

abbrev pub uid_of : Option ObjectReference → Option String
uid_of none = none
uid_of (some ref) = some ref.uid

abbrev pub view : ClaimState → Option ObjectReference → View
view unclaimed ref = free
view claimed ref = held (uid_of ref)
view released ref = dirty

abbrev pub view_of : BlockDevice → View
view_of bd = view bd.status.claim_state bd.spec.claim_ref

pub data Move : View → View → Type 0 where
  take : (uid : String) → Move free (held (some uid))
  let_go : (uid : String) → Move (held (some uid)) dirty
  clean : Move dirty free

-- The device stays as it is, or makes one move.
abbrev pub Follows : View → List View → Type 0
Follows u [] = Unit
Follows u (v ∷ vs) = (u ≡ v) ⊎ Move u v

-- Each state follows the one before it.
abbrev pub IsRun : List View → Type 0
IsRun [] = Unit
IsRun (v ∷ vs) = Follows v vs × IsRun vs

-- the states of the device before, between and after the writes
abbrev pub visited : (s : Setting) (first last : BlockDevice) → Steps s first last → List View
visited s first last (stop _) = view_of first ∷ []
visited s first last (step _ sent _ version now rest) =
    view_of first ∷ visited s (stored version sent) last rest

view_kept :
    (state : ClaimState) (before after : Option ObjectReference)
    → (state ≡ unclaimed) ⊎ (after ≡ before)
    → view state before ≡ view state after
view_kept unclaimed before after e = refl
view_kept released before after e = refl
view_kept claimed before after (inl e) = absurd cc
view_kept claimed before after (inr e) = rw e refl

module _ (s : Setting) where
  Effect-Move :
      (before after : BlockDevice) (now : Step s before after)
      → Effect s before after now
      → (view_of before ≡ view_of after) ⊎ Move (view_of before) (view_of after)
  Effect-Move before after now (taken bdc t) =
      let (is, ref, e, by) = t.3 in
      let was : before.status.claim_state ≡ unclaimed = t.2.0.is_unclaimed in
      inr (rw was (rw is (rw e (take ref.uid))))
  Effect-Move before after now (freed by (_, f)) =
      let (is, ref, e, refers) = f.3 in inr (rw is (rw e (rw f.4 (let_go ref.uid))))
  Effect-Move before after now (recycled (h, _, r)) = inr (rw r.0 (rw r.3 clean))
  Effect-Move before after now (protected (_, _, _, same_status, same_spec)) =
      inl (rw same_status (rw same_spec refl))
  Effect-Move before after now (kept k) = inl (
      view_kept before.status.claim_state before.spec.claim_ref after.spec.claim_ref
        k.same_reference
      ∙ ap (λ state. view state after.spec.claim_ref) (sym k.same_claim_state))

module _ (s : Setting) (builds : BuildsTagRequirement s.does_not_exist)
    (refers : (bdc : BlockDeviceClaim) (ref : ObjectReference)
      → s.reference bdc ≡ some ref
      → RefersTo bdc ref) where
  Follows-visited :
      (u : View) (next last : BlockDevice) (rest : Steps s next last)
      → (u ≡ view_of next) ⊎ Move u (view_of next)
      → Follows u (visited s next last rest)
  Follows-visited u next last (stop _) now = now
  Follows-visited u next last (step _ _ _ _ _ _) now = now

  -- In any sequence of accepted writes of the two reconcilers and the daemon each write leaves the
  -- device in its state, or moves it one step along the cycle: free, held by the claim with some uid,
  -- to be cleaned, free. So no write hands a device from one claim to another, and none makes a device
  -- free that a claim holds. It assumes that GetReference returns a reference to its object, and that
  -- the DoesNotExist requirement is built.
  pub visited-IsRun :
      (first last : BlockDevice) (steps : Steps s first last) → IsRun (visited s first last steps)
  visited-IsRun first last (stop _) = (tt, tt)
  visited-IsRun first last (step _ sent _ version now rest) = (
    Follows-visited (view_of first) (stored version sent) last rest
        (Effect-Move s first sent now (Step-Effect s builds refers first sent now)),
    visited-IsRun (stored version sent) last rest,
  )

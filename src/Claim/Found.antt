-- ===== src/Claim/Found.antt =====
-- The device that releaseClaimedBlockDevice finds, and the finalizers it looks at.
use node_disk_manager.Base.{
  ◌⊎◌, String, ◌≡◌, ◌≢◌, Bool, true, false, Option, none, some, List, [], ◌∷◌, In, refl, inl, inr,
  Bool-cases, Option-cases, contains→In, eq_iff, eq_refl, arith,
}
use node_disk_manager.Api.{
  BlockDevice, BlockDeviceClaim, ObjectReference, ObjectMeta, ClaimState, claimed, is_claimed,
}
use node_disk_manager.Cluster.Program.{Failure, Outcome, done, failed}
use node_disk_manager.Claim.{
  is_requested_by, names_claim, find_claimed, is_live, is_only_protected,
  block_device_claim_finalizer,
}
use node_disk_manager.Claim.Allowed.{HeldBy, RefersTo}

claimed_of : (s : ClaimState) → is_claimed s ≡ true → s ≡ claimed
claimed_of ClaimState.unclaimed e = absurd cc
claimed_of ClaimState.released e = absurd cc
claimed_of claimed e = refl

names_claim-RefersTo :
    (bdc : BlockDeviceClaim) (r : Option ObjectReference)
    → names_claim bdc r ≡ done true
    → (ref : ObjectReference) × (r ≡ some ref) × RefersTo bdc ref
unfolding names_claim
names_claim-RefersTo bdc none e = absurd cc
names_claim-RefersTo bdc (some ref) e = (
  ref,
  refl,
  ground (
    arith,
    eq_iff ref.name bdc.meta.name,
    eq_iff ref.uid bdc.meta.uid,
    eq_iff ref.kind bdc.type_meta.kind,
  ),
)

is_requested_by-HeldBy :
    (bdc : BlockDeviceClaim) (bd : BlockDevice) → is_requested_by bdc bd ≡ done true → HeldBy bdc bd
unfolding is_requested_by
is_requested_by-HeldBy bdc bd e = elim (Bool-cases (is_claimed bd.status.claim_state)) [
  | inl c ↦
      let (ref, is_ref, refers) = names_claim-RefersTo bdc bd.spec.claim_ref (rw c at e) in
      (claimed_of bd.status.claim_state c, ref, is_ref, refers)
  | inr c ↦ absurd (cc)
]

Outcome-cases :
    (o : Outcome Bool) → ((e : Failure) × (o ≡ failed e)) ⊎ (o ≡ done true) ⊎ (o ≡ done false)
Outcome-cases (failed e) = inl (e, refl)
Outcome-cases (done true) = inr (inl refl)
Outcome-cases (done false) = inr (inr refl)

pub find_claimed-HeldBy :
    (bdc : BlockDeviceClaim) (bds : List BlockDevice) (bd : BlockDevice)
    → find_claimed bdc bds ≡ done (some bd)
    → In bd bds × HeldBy bdc bd
unfolding find_claimed
find_claimed-HeldBy bdc [] bd e = absurd cc
find_claimed-HeldBy bdc (x ∷ bds) bd e = elim (Outcome-cases (is_requested_by bdc x)) [
  | inl (err, f) ↦ absurd (cc)
  | inr (inl t) ↦
      let same : done (some x) ≡ done (some bd) = rw (t, find_claimed) at e in
      let is_x : bd ≡ x = cc in (inl is_x, rw is_x (is_requested_by-HeldBy bdc x t))
  | inr (inr t) ↦
      let (m, held) = find_claimed-HeldBy bdc bds bd (rw (t, find_claimed) at e) in (inr m, held)
]

pub not_live : (meta : ObjectMeta) → is_live meta ≡ false → meta.deletion_timestamp ≢ none
not_live meta e = λ n. absurd (cc)

pub live : (meta : ObjectMeta) → is_live meta ≡ true → meta.deletion_timestamp ≡ none
live meta e = elim (Option-cases meta.deletion_timestamp) [ inl n ↦ n | inr (t, n) ↦ absurd (cc) ]

pub only_protected :
    (fs : List String) → is_only_protected fs ≡ true → fs ≡ block_device_claim_finalizer ∷ []
only_protected [] e = absurd cc
only_protected (f ∷ []) e = elim (contains→In (f ∷ []) block_device_claim_finalizer e) [
  | inl h ↦ cc
  | inr h ↦ absurd h
]
only_protected (f ∷ g ∷ fs) e = ground arith

-- The converse: a device that the claim holds is recognised, and found where no claimed device
-- lacks its reference.
is_requested_by-true :
    (bdc : BlockDeviceClaim) (bd : BlockDevice) → HeldBy bdc bd → is_requested_by bdc bd ≡ done true
unfolding is_requested_by names_claim
is_requested_by-true bdc bd (is_held, ref, is_ref, refers) =
    rw
      (
        is_held,
        is_ref,
        refers.same_name,
        refers.same_uid,
        refers.same_kind,
        eq_refl bdc.meta.name,
        eq_refl bdc.meta.uid,
        eq_refl bdc.type_meta.kind,
      )
      refl

is_requested_by-total :
    (bdc : BlockDeviceClaim) (bd : BlockDevice)
    → (bd.status.claim_state ≡ claimed → bd.spec.claim_ref ≢ none)
    → (e : Failure) → is_requested_by bdc bd ≢ failed e
unfolding is_requested_by names_claim
is_requested_by-total bdc bd has_ref e f = elim (Bool-cases (is_claimed bd.status.claim_state)) [
  | inl c ↦ elim (Option-cases bd.spec.claim_ref) [
    | inl n ↦ has_ref (claimed_of bd.status.claim_state c) n
    | inr (ref, r) ↦ absurd (cc)
  ]
  | inr c ↦ absurd (cc)
]

held-not_false :
    (bdc : BlockDeviceClaim) (x bd : BlockDevice)
    → HeldBy bdc bd
    → bd ≡ x
    → is_requested_by bdc x ≢ done false
held-not_false bdc x bd held e f =
    let t : is_requested_by bdc bd ≡ done true = is_requested_by-true bdc bd held in
    let t' : is_requested_by bdc x ≡ done true = rw e at t in absurd (cc)

pub HeldBy-find_claimed :
    (bdc : BlockDeviceClaim) (bds : List BlockDevice) (bd : BlockDevice)
    → ((d : BlockDevice) → In d bds → d.status.claim_state ≡ claimed → d.spec.claim_ref ≢ none)
    → In bd bds
    → HeldBy bdc bd
    → (found : BlockDevice) × (find_claimed bdc bds ≡ done (some found))
unfolding find_claimed
HeldBy-find_claimed bdc [] bd refs m held = absurd m
HeldBy-find_claimed bdc (x ∷ bds) bd refs m held = elim (Outcome-cases (is_requested_by bdc x)) [
  | inl (e, f) ↦ absurd (is_requested_by-total bdc x (refs x (inl refl)) e f)
  | inr (inl t) ↦ (x, rw (t, find_claimed) refl)
  | inr (inr t) ↦ elim m [
    | inl is_x ↦ absurd (held-not_false bdc x bd held is_x t)
    | inr later ↦
        let (found, f) = HeldBy-find_claimed bdc bds bd (λ d i. refs d (inr i)) later held in
        (found, rw (t, find_claimed) f)
  ]
]

pub dead : (meta : ObjectMeta) → meta.deletion_timestamp ≢ none → is_live meta ≡ false
dead meta d = elim (Option-cases meta.deletion_timestamp) [
  | inl n ↦ absurd (d n)
  | inr (t, n) ↦ rw n refl
]

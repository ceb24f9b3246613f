-- ===== src/Daemon/Filters/Validity.antt =====
-- What is known of a device that passes the filters.
use node_disk_manager.Base.{true, List, [], ◌∷◌, In, keep_mem, ◌≡◌, ◌↔◌, inl, inr, refl, arith}
use node_disk_manager.Daemon.{LocalDevice}
use node_disk_manager.Daemon.Filters.{Filter, list_filter, all_pass, apply_filter}

-- The filter lets the device pass.
abbrev pub LetsPass : LocalDevice → Filter → Type 0
LetsPass bd filter = (filter.includes bd ≡ true) × (filter.excludes bd ≡ true)

all_pass-cons :
    (f : Filter) (filters : List Filter) (bd : LocalDevice)
    → all_pass (f ∷ filters) bd ≡ true
    → LetsPass bd f × (all_pass filters bd ≡ true)
unfolding all_pass
all_pass-cons f filters bd e = ground arith

all_pass→In :
    (filters : List Filter) (bd : LocalDevice)
    → all_pass filters bd ≡ true
    → (filter : Filter) → In filter filters
    → LetsPass bd filter
all_pass→In [] bd e filter m = absurd m
all_pass→In (f ∷ filters) bd e filter (inl same) = rw same (all_pass-cons f filters bd e).0
all_pass→In (f ∷ filters) bd e filter (inr later) =
    all_pass→In filters bd (all_pass-cons f filters bd e).1 filter later

In→all_pass :
    (filters : List Filter) (bd : LocalDevice)
    → ((filter : Filter) → In filter filters → LetsPass bd filter)
    → all_pass filters bd ≡ true
unfolding all_pass
In→all_pass [] bd h = refl
In→all_pass (f ∷ filters) bd h =
    let (i, x) = h f (inl refl) in rw (i, x) (In→all_pass filters bd (λ filter m. h filter (inr m)))

-- ApplyFilter lets a device pass exactly if every enabled filter includes it and does not exclude it.
pub apply_filter_iff :
    (filters : List Filter) (bd : LocalDevice)
    → (apply_filter filters bd ≡ true)
      ↔ ((filter : Filter) → In filter filters → filter.state ≡ true → LetsPass bd filter)
unfolding apply_filter list_filter
apply_filter_iff filters bd = (
  λ e filter m enabled.
      all_pass→In (list_filter filters) bd e filter
        ((keep_mem (λ f. f.state) filter filters).1 (m, enabled)),
  λ h. In→all_pass (list_filter filters) bd (λ filter m.
      let (among, enabled) = (keep_mem (λ f. f.state) filter filters).0 m in
      h filter among enabled),
)

-- ===== src/Mount/Util/Sound.antt =====
-- Every mount point that is reported for a device is in the file.
use node_disk_manager.Base.{
  String, true, false, not, Bool-cases, ◌&&◌, ◌==◌, Option-cases, none, some, List, [], ◌∷◌, ◌++◌,
  split, has_prefix, In, ◌≡◌, ◌≢◌, ◌⊎◌, inl, inr, refl, eq_iff, arith,
}
use node_disk_manager.Mount.Util.{
  DeviceMountAttr, no_attr, LineResult, no_match, panics, matched, MountResult, attr_found,
  merge_attrs, with_dev_path, with_file_system, with_mount_points, mount_name_of, get_mount_name,
  Scan, take_line, scan_line, scan, scan_result, get_device_mount_attr,
}

In-append-cases : (x : String) (xs ys : List String) → In x (xs ++ ys) → In x xs ⊎ In x ys
In-append-cases x [] ys m = inr m
In-append-cases x (y ∷ xs) ys (inl e) = inl (inl e)
In-append-cases x (y ∷ xs) ys (inr m) = elim (In-append-cases x xs ys m) [
  | inl a ↦ inl (inr a)
  | inr b ↦ inr b
]

module _ (dev_path : String) (all_lines : List String) where
  -- A line for the device with a mount point and a file system.
  abbrev pub IsMounted : String → String → Type 0
  IsMounted mount_point file_system =
      (line : String) × In line all_lines
      × (has_prefix line "/dev" ≡ true)
      × (options : List String) × (split b' ' line ≡ dev_path ∷ mount_point ∷ file_system ∷ options)

  abbrev pub AllMounted : DeviceMountAttr → Type 0
  AllMounted attr =
      (mount_point : String)
      → In mount_point attr.mount_point
      → IsMounted mount_point attr.file_system

  -- what a line adds: with a mount point there is a file system
  abbrev Good : DeviceMountAttr → Type 0
  Good attr = AllMounted attr × ((attr.file_system ≡ "") → attr.mount_point ≡ [])

  with_dev_path-Good : (ma mb : DeviceMountAttr) → Good ma → Good (with_dev_path ma mb)
  with_dev_path-Good ma mb good = elim (Bool-cases (ma.dev_path == "")) [
    | inl e ↦ rw e good
    | inr e ↦ rw e good
  ]

  with_file_system-Good : (ma mb : DeviceMountAttr) → Good ma → Good (with_file_system ma mb)
  with_file_system-Good ma mb good = elim (Bool-cases (ma.file_system == "")) [
    | inr e ↦ rw e good
    | inl e ↦
        let empty : ma.mount_point ≡ [] = good.1 ((eq_iff ma.file_system "").0 e) in
        rw e (λ mount_point m. absurd (rw empty at m), λ _. empty)
  ]

  with_mount_points-Good :
      (ma mb : DeviceMountAttr) → Good ma → AllMounted mb → Good (with_mount_points ma mb)
  with_mount_points-Good ma mb good all =
      elim (Bool-cases (not (ma.file_system == "") && ma.file_system == mb.file_system)) [
        | inr e ↦ rw e good
        | inl e ↦
            let same : ma.file_system ≡ mb.file_system =
              ground (arith, eq_iff ma.file_system mb.file_system) in
            let some_fs : ma.file_system ≢ "" = λ n. ground (arith, eq_iff ma.file_system "") in
            rw e (
              λ mount_point m. elim (In-append-cases mount_point ma.mount_point mb.mount_point m) [
                | inl a ↦ good.0 mount_point a
                | inr b ↦ rw same (all mount_point b)
              ],
              λ n. absurd (some_fs n),
            )
      ]

  merge_attrs-Good : (ma mb : DeviceMountAttr) → Good ma → AllMounted mb → Good (merge_attrs ma mb)
  unfolding merge_attrs
  merge_attrs-Good ma mb good all =
      let first = with_dev_path-Good ma mb good in
      elim (Bool-cases ((with_dev_path ma mb).dev_path == mb.dev_path)) [
        | inr e ↦ rw (e, merge_attrs) first
        | inl e ↦
            rw (e, merge_attrs)
              (with_mount_points-Good (with_file_system (with_dev_path ma mb) mb) mb
                (with_file_system-Good (with_dev_path ma mb) mb first) all)
      ]

  mount_name_of-AllMounted :
      (line : String) (parts : List String) (attr : DeviceMountAttr)
      → In line all_lines
      → has_prefix line "/dev" ≡ true
      → split b' ' line ≡ parts
      → mount_name_of dev_path parts ≡ matched attr
      → AllMounted attr
  unfolding mount_name_of
  mount_name_of-AllMounted line [] attr m p s e = absurd cc
  mount_name_of-AllMounted line (device ∷ []) attr m p s e = λ x i. absurd (ground arith)
  mount_name_of-AllMounted line (device ∷ mounted_on ∷ []) attr m p s e =
      λ x i. absurd (ground arith)
  mount_name_of-AllMounted line (device ∷ mounted_on ∷ file_system ∷ options) attr m p s e =
      elim (Bool-cases (device == dev_path)) [
        | inr n ↦ let f : no_match ≡ matched attr = rw n at e in absurd cc
        | inl y ↦
            let f : matched (record {
              dev_path = "";
              mount_point = mounted_on ∷ [];
              file_system = file_system;
            })
                ≡ matched attr =
              rw y at e in
            let same : attr ≡ record {
              dev_path = "";
              mount_point = mounted_on ∷ [];
              file_system = file_system;
            } =
              cc in
            let is_dev : device ≡ dev_path = (eq_iff device dev_path).0 y in
            rw same (λ x i. elim i [
              | inl q ↦ (line, m, p, options, cc)
              | inr none_left ↦ absurd none_left
            ])
      ]

  get_mount_name-AllMounted :
      (line : String) (attr : DeviceMountAttr)
      → In line all_lines
      → has_prefix line "/dev" ≡ true
      → get_mount_name dev_path line ≡ matched attr
      → AllMounted attr
  unfolding get_mount_name
  get_mount_name-AllMounted line attr m p e = elim (Bool-cases (line == "")) [
    | inl y ↦ let f : no_match ≡ matched attr = rw y at e in absurd cc
    | inr n ↦ mount_name_of-AllMounted line (split b' ' line) attr m p refl (rw n at e)
  ]

  take_line-Good :
      (r : LineResult) (st next : Scan)
      → ((attr : DeviceMountAttr) → r ≡ matched attr → AllMounted attr)
      → Good st.1
      → take_line r st ≡ some next
      → Good next.1
  unfolding take_line
  take_line-Good no_match st next adds good e = let same : st ≡ next = cc in rw same at good
  take_line-Good panics st next adds good e = absurd cc
  take_line-Good (matched attr) st next adds good e =
      let same : merge_attrs st.1 attr ≡ next.1 = cc in
      rw same at (merge_attrs-Good st.1 attr good (adds attr refl))

  scan_line-Good :
      (line : String) (st next : Scan)
      → In line all_lines
      → Good st.1
      → scan_line (get_mount_name dev_path) line st ≡ some next
      → Good next.1
  unfolding scan_line
  scan_line-Good line st next m good e = elim (Bool-cases (has_prefix line "/dev")) [
    | inl p ↦
        take_line-Good (get_mount_name dev_path line) st next
          (λ attr f. get_mount_name-AllMounted line attr m p f) good (rw p at e)
    | inr n ↦
        let f : some st ≡ some next = rw n at e in let same : st ≡ next = cc in rw same at good
  ]

  scan-Good :
      (lines : List String) (st result : Scan)
      → ((line : String) → In line lines → In line all_lines)
      → Good st.1
      → scan (get_mount_name dev_path) lines st ≡ some result
      → Good result.1
  unfolding scan
  scan-Good [] st result among good e = let same : st ≡ result = cc in rw same at good
  scan-Good (line ∷ lines) st result among good e =
      elim (Option-cases (scan_line (get_mount_name dev_path) line st)) [
        | inl n ↦ let f : none ≡ some result = rw (n, scan) at e in absurd cc
        | inr (next, n) ↦
            scan-Good lines next result (λ l m. among l (inr m))
              (scan_line-Good line st next (among line (inl refl)) good n) (rw (n, scan) at e)
      ]

-- Every mount point that getDeviceMountAttr reports for a device stands in a line of the file for this
-- device, with the file system that is reported.
pub get_device_mount_attr_sound :
    (dev_path : String) (lines : List String) (attr : DeviceMountAttr)
    → get_device_mount_attr (get_mount_name dev_path) (some lines) ≡ attr_found attr
    → (mount_point : String) → In mount_point attr.mount_point
    → IsMounted dev_path lines mount_point attr.file_system
unfolding get_device_mount_attr scan_result
get_device_mount_attr_sound dev_path lines attr e =
    elim (Option-cases (scan (get_mount_name dev_path) lines (false, no_attr))) [
      | inl n ↦
          let f : MountResult.index_panic ≡ attr_found attr = rw (n, get_device_mount_attr) at e in
          absurd cc
      | inr ((true, found), n) ↦
          let f : attr_found found ≡ attr_found attr = rw (n, get_device_mount_attr) at e in
          let same : found ≡ attr = cc in
          rw same at
            (scan-Good dev_path lines lines (false, no_attr) (true, found) (λ l m. m)
              (λ x m. absurd m, λ _. refl) n).0
      | inr ((false, found), n) ↦
          let f : MountResult.not_found ≡ attr_found attr = rw (n, get_device_mount_attr) at e in
          absurd cc
    ]

-- ===== src/Mount/Tests.antt =====
-- Runs of GenerateDiff, and its theorems at two small tables.
use node_disk_manager.Base.{
  ◌==◌, String, ◌≡◌, ◌≢◌, Option, none, some, [], ◌∷◌, refl, true, false, ℕ, eq_iff, inl, inr,
  arith,
}
use node_disk_manager.Mount.Table.{Filesystem, MountTab, empty_tab}
use node_disk_manager.Mount.Diff.{
  diff_entries, counterpart, move_entry, add_moved, add_old, add_new, old_loop, new_loop,
  generate_diff, diff_entry, mount, umount, move, remount, entries_of,
}
use node_disk_manager.Mount.Explained.{Every, IsExplained, Unmatched}
use node_disk_manager.Mount.Keeps.{Some}
use node_disk_manager.Mount.Vanished.{Vanished}
use node_disk_manager.Mount.Complete.{Appeared, generate_diff-Appeared, generate_diff-Vanished}
use node_disk_manager.Mount.Sound.{generate_diff_sound}

abbrev fs : ℕ → String → String → String → Filesystem
fs id source target opts = record {
  has_tab = true;
  id = id;
  source = source;
  tag_name = "";
  tag_value = "";
  target = target;
  fs_type = "ext4";
  vfs_opts = opts;
  fs_opts = "rw";
}

abbrev old_table : Option MountTab
old_table = some (record empty_tab {
  entries =
      fs 1 "/dev/sda1" "/" "rw" ∷ fs 2 "/dev/sdb1" "/data" "rw" ∷ fs 3 "/dev/sdc1" "/mnt" "rw" ∷ [];
})

abbrev new_table : Option MountTab
new_table = some (record empty_tab {
  entries =
      fs 1 "/dev/sda1" "/" "ro" ∷ fs 2 "/dev/sdb1" "/srv" "rw" ∷ fs 4 "/dev/sdd1" "/new" "rw" ∷ [];
})

diff_run :
    generate_diff old_table new_table
    ≡ diff_entry (some (fs 1 "/dev/sda1" "/" "rw")) (some (fs 1 "/dev/sda1" "/" "ro")) remount
      ∷ diff_entry (some (fs 2 "/dev/sdb1" "/data" "rw")) (some (fs 2 "/dev/sdb1" "/srv" "rw")) move
      ∷ diff_entry none (some (fs 4 "/dev/sdd1" "/new" "rw")) mount
      ∷ diff_entry (some (fs 3 "/dev/sdc1" "/mnt" "rw")) none umount
      ∷ []
unfolding generate_diff new_loop old_loop add_new add_old add_moved move_entry counterpart
    diff_entries
diff_run = refl

differ : (s t : String) → (s == t) ≡ false → s ≢ t
differ s t h e = cc ((eq_iff s t).1 e)

sdd1_Unmatched : Unmatched (fs 4 "/dev/sdd1" "/new" "rw") (entries_of old_table)
sdd1_Unmatched g i s = ground (
  arith,
  differ "/dev/sda1" "/dev/sdd1" refl,
  differ "/dev/sdb1" "/dev/sdd1" refl,
  differ "/dev/sdc1" "/dev/sdd1" refl,
)

sdb1_Unmatched : Unmatched (fs 2 "/dev/sdb1" "/data" "rw") (entries_of new_table)
sdb1_Unmatched g i s = ground (
  arith,
  differ "/dev/sda1" "/dev/sdb1" refl,
  differ "/srv" "/data" refl,
  differ "/dev/sdd1" "/dev/sdb1" refl,
)

generate_diff_sound_example :
    Every
      (IsExplained (entries_of old_table) (entries_of new_table))
      (generate_diff old_table new_table)
generate_diff_sound_example = generate_diff_sound old_table new_table

generate_diff-Appeared_example :
    Some (Appeared (fs 4 "/dev/sdd1" "/new" "rw")) (generate_diff old_table new_table)
generate_diff-Appeared_example =
    generate_diff-Appeared old_table new_table (fs 4 "/dev/sdd1" "/new" "rw") (inr (inr (inl refl)))
      sdd1_Unmatched

generate_diff-Vanished_example :
    Some (Vanished (fs 2 "/dev/sdb1" "/data" "rw")) (generate_diff old_table new_table)
generate_diff-Vanished_example =
    generate_diff-Vanished old_table new_table (fs 2 "/dev/sdb1" "/data" "rw") (inr (inl refl))
      sdb1_Unmatched

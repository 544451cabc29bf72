-- ===== src/Persist/File/Walked.antt =====
-- persist.go, `filePersist`: the walks over its directory, by `NewFilePersist` and `Range`.
use libmqtt.Prelude.{◌≡◌, refl, Bool, true, false, ◌||◌, [], some, ok, ap, ◌∙◌}
use libmqtt.Persist.File.{
  FileSystem, skip_dir, FilePersist, count_file, new_file_persist, range_file, range,
}

module _ {F : Type 0} (system : FileSystem F) where
  or_true : (b : Bool) → (b || true) ≡ true
  or_true true = refl
  or_true false = refl

  -- Whatever packets are in its directory, a store that is made anew counts none, and `Range` calls the
  -- caller's function with none: both walks end at the directory itself, which is visited first.
  pub range-nothing :
      (m : FilePersist F)
      → (system.root m.dir_path m.files).is_dir ≡ true
      → (range system m ≡ ok [])
        × ((new_file_persist system m.dir_path (some m.strategy) m.files).n ≡ 0)
  unfolding range new_file_persist
  range-nothing m h =
      let v = system.root m.dir_path m.files in
      let ends : (range_file system m v (ok [])) ≡ (ok [], skip_dir) =
        unfold range_file in simp (h, or_true v.failed) refl in
      let counts : count_file system v 0 ≡ (0, skip_dir) =
        unfold count_file in simp (h, or_true v.failed) refl in
      (
        system.walk-skip_dir m.dir_path m.files (range_file system m) (ok []) h (ap (λ x. x.1) ends)
            ∙ ap (λ x. x.0) ends,
        system.walk-skip_dir m.dir_path m.files (count_file system) 0 h (ap (λ x. x.1) counts)
            ∙ ap (λ x. x.0) counts,
      )

-- ===== src/Tests/Store.antt =====
-- Saves of a state in an empty directory.
use cfwg.Base.{◌≡◌, refl, none, some, false, [], ◌∷◌, ok, Text, message}
use cfwg.Base.TextMap.{lookup, insert, delete}
use cfwg.State.{State, no_state}
use cfwg.State.Store.{Files, StateJson, SaveWorld, save, load}
use cfwg.State.Store.Atomic.{IsAtomic, save-IsAtomic, load-save}
use cfwg.Base.{text_eq}

-- Every state is written as "d", and read back as the state of the device "d".
abbrev device : State
device = record no_state { schema_version = 1; device_id = 100 ∷ [] }

abbrev short_json : StateJson
short_json = record { encode = λ s. ok (100 ∷ []); decode = λ body. ok device }

abbrev good : SaveWorld
good = record {
  mkdir_error = none;
  temp_path = ok (116 ∷ []);
  chmod_error = none;
  write_error = none;
  written_part = 0;
  sync_error = none;
  close_error = none;
  rename_error = none;
  final_chmod_error = none;
  remove_error = none;
}

abbrev cut : SaveWorld
cut = record good {
  write_error = some (message "no space left on device");
  remove_error = some (message "read-only file system");
}

apart : text_eq (116 ∷ []) (112 ∷ []) ≡ false
unfolding text_eq
apart = refl

fresh : lookup {V = Text} (116 ∷ []) [] ≡ none
unfolding lookup
fresh = refl

abbrev saved_files : Files
saved_files = (112 ∷ [], 100 ∷ 10 ∷ []) ∷ []

saved : save short_json (112 ∷ []) good device [] ≡ (ok tt, saved_files)
unfolding save insert delete text_eq
saved = refl

save-IsAtomic_example :
    IsAtomic short_json (112 ∷ []) [] device cut (save short_json (112 ∷ []) cut device [])
save-IsAtomic_example = save-IsAtomic short_json (112 ∷ []) [] device cut (apart, fresh)

load-save_example : load short_json (112 ∷ []) none saved_files ≡ ok device
load-save_example =
    load-save short_json (112 ∷ []) [] device good (100 ∷ []) saved_files (apart, fresh) refl refl
      saved

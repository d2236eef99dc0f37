-- ===== src/State/Store.antt =====
-- internal/state/state.go: the file that the state is kept in, in a file system whose calls may fail.
pub mod Atomic
use cfwg.Base.{
  ℕ, Option, none, some, List, [], ◌∷◌, ◌++◌, String, Text, take, Result, ok, err, Error, wrap,
}
use cfwg.Base.TextMap.{TextMap, lookup, insert, delete}
use cfwg.State.{State, no_state}

-- The files, by path.
abbrev pub Files : Type 0
Files = TextMap Text

-- encoding/json on a State.
pub record StateJson : Type 0 where
  pub encode : State → Result Text
  pub decode : Text → Result State

-- What the calls of one Save meet: the path of the temporary file, the error of each call, also of the
-- deferred Remove, and how much of the content a failed write has written.
pub record SaveWorld : Type 0 where
  pub mkdir_error : Option Error
  pub temp_path : Result Text
  pub chmod_error : Option Error
  pub write_error : Option Error
  pub written_part : ℕ
  pub sync_error : Option Error
  pub close_error : Option Error
  pub rename_error : Option Error
  pub final_chmod_error : Option Error
  pub remove_error : Option Error

-- A call whose error ends Save, with the files that stand then.
abbrev step : Option Error → String → Files → Result (Unit {0}) × Files → Result (Unit {0}) × Files
step (some e) context failed next = (err (wrap context e), failed)
step none context failed next = next

-- The deferred `os.Remove(tmpPath)`, whose error is not looked at.
remove_temp : Option Error → Text → Files → Files
remove_temp none tmp files = delete tmp files
remove_temp (some e) tmp files = files

module _ (json : StateJson) (path : Text) where
  decoded : Result State → Result State
  decoded (ok s) = ok s
  decoded (err e) = err (wrap "decode state file" e)

  read_content : Option Text → Result State
  unfolding decoded
  read_content none = ok no_state
  read_content (some body) = decoded (json.decode body)

  read_checked : Option Error → Files → Result State
  unfolding read_content
  read_checked (some e) files = err (wrap "read state file" e)
  read_checked none files = read_content (lookup path files)

  -- A read may fail with an error that is not os.ErrNotExist.
  unfoldable pub load : Option Error → Files → Result State
  unfolding read_checked
  load read_error files = read_checked read_error files

  -- The temporary file holds the content, and is closed.
  replace : SaveWorld → Text → Text → Files → Result (Unit {0}) × Files
  unfolding remove_temp
  replace w tmp content files =
      let replaced = insert path content (delete tmp files) in
      step w.rename_error "replace state file" (remove_temp w.remove_error tmp files) (
        step w.final_chmod_error "chmod state file" (remove_temp w.remove_error tmp replaced)
          (ok tt, replaced))

  fill : SaveWorld → Text → Text → Files → Result (Unit {0}) × Files
  unfolding replace remove_temp
  fill w tmp content files =
      let part = insert tmp (take w.written_part content) files in
      let full = insert tmp content files in
      step w.chmod_error "chmod temp state file" (remove_temp w.remove_error tmp files) (
        step w.write_error "write temp state file" (remove_temp w.remove_error tmp part) (
          step w.sync_error "sync temp state file" (remove_temp w.remove_error tmp full) (
            step w.close_error "close temp state file" (remove_temp w.remove_error tmp full)
              (replace w tmp content full))))

  save_at : SaveWorld → Text → Result Text → Files → Result (Unit {0}) × Files
  unfolding fill
  save_at w body (err e) files = (err (wrap "create temp state file" e), files)
  save_at w body (ok tmp) files = fill w tmp (body ++ 10 ∷ []) (insert tmp [] files)

  save_data : SaveWorld → Result Text → Files → Result (Unit {0}) × Files
  unfolding save_at
  save_data w (err e) files = (err (wrap "marshal state" e), files)
  save_data w (ok body) files = save_at w body w.temp_path files

  unfoldable pub save : SaveWorld → State → Files → Result (Unit {0}) × Files
  unfolding save_data
  save w s files = step w.mkdir_error "create state dir" files (save_data w (json.encode s) files)

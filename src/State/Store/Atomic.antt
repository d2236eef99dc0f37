-- ===== src/State/Store/Atomic.antt =====
-- internal/state/state.go: what a save leaves, and what is loaded after it.
use cfwg.Base.{
  Bool, true, false, Option, none, some, [], ◌∷◌, ◌++◌, String, Text, text_eq, text_eq_iff,
  text_eq_sound, subst, sym, text_eq_refl, ◌≡◌, refl, Result, ok, err, Error, arith, take,
  if◌then◌else◌, ◌⊎◌, inl, inr, wrap,
}
use cfwg.Base.TextMap.{lookup, insert, delete, lookup-insert, lookup-delete}
use cfwg.State.{State}
use cfwg.State.Store.{
  Files, StateJson, SaveWorld, step, save, save_data, save_at, fill, replace, load, read_checked,
  read_content, decoded, remove_temp,
}

step_cases :
    (P : Result (Unit {0}) × Files → Type 0) (o : Option Error) (context : String) (failed : Files)
    (next : Result (Unit {0}) × Files)
    → ((e : Error) → P (err e, failed))
    → P next
    → P (step o context failed next)
step_cases P (some e) context failed next fails goes = fails (wrap context e)
step_cases P none context failed next fails goes = goes

-- The temporary file that stays, because it cannot be removed.
abbrev pub is_left : Option Error → Result Text → Text → Bool
is_left none made q = false
is_left (some e) (ok tmp) q = text_eq tmp q
is_left (some e) (err x) q = false

module _ (json : StateJson) (path : Text) (files : Files) (s : State) where
  -- Every file reads as before, but for a temporary file that cannot be removed.
  abbrev pub Same : SaveWorld → Files → Type 0
  Same w after =
      (q : Text)
      → lookup q after
        ≡ (if is_left w.remove_error w.temp_path q then lookup q after else lookup q files)

  -- The state's file reads as the whole new state, and every other file as before.
  abbrev pub Replaced : Files → Type 0
  Replaced after =
      (body : Text) × (json.encode s ≡ ok body)
      × ((q : Text)
          → lookup q after ≡ (if text_eq path q then some (body ++ 10 ∷ []) else lookup q files))

  -- A result with its files: after a success the state is replaced, after a failure it may be.
  abbrev pub IsAtomic : SaveWorld → Result (Unit {0}) × Files → Type 0
  IsAtomic w (ok u, after) = Replaced after
  IsAtomic w (err e, after) = Same w after ⊎ Replaced after

  module _ (tmp : Text) (apart : text_eq tmp path ≡ false) (fresh : lookup tmp files ≡ none) where
    -- Every file but the temporary one reads as before.
    abbrev Off : Files → Type 0
    Off after = (q : Text) → text_eq tmp q ≡ false → lookup q after ≡ lookup q files

    insert-Off : (content : Text) (after : Files) → Off after → Off (insert tmp content after)
    insert-Off content after off q h = rw (lookup-insert tmp q content after, h) (off q h)

    delete-reads :
        (after : Files) (q : Text) → Off after → lookup q (delete tmp after) ≡ lookup q files
    delete-reads after q off = rw (lookup-delete tmp q after) (go (text_eq tmp q) refl)
      where
        go : (b : Bool) → text_eq tmp q ≡ b → (if b then none else lookup q after) ≡ lookup q files
        go true same =
            subst (λ (x : Text). none ≡ lookup x files) (text_eq_sound tmp q same) (sym fresh)
        go false other = off q other

    kept-reads :
        (after : Files) (q : Text) (b : Bool)
        → text_eq tmp q ≡ b
        → Off after
        → lookup q after ≡ (if b then lookup q after else lookup q files)
    kept-reads after q true same off = refl
    kept-reads after q false other off = off q other

    remove_temp-Same :
        (w : SaveWorld) (after : Files)
        → w.temp_path ≡ ok tmp
        → Off after
        → Same w (remove_temp w.remove_error tmp after)
    unfolding remove_temp
    remove_temp-Same w after made off q = rw made (go w.remove_error)
      where
        go :
            (o : Option Error)
            → lookup q (remove_temp o tmp after) ≡ (
                if is_left o (ok tmp) q then lookup q (remove_temp o tmp after) else lookup q files)
        go none = delete-reads after q off
        go (some e) = kept-reads after q (text_eq tmp q) refl off

    insert-Replaced :
        (body : Text) (after : Files)
        → json.encode s ≡ ok body
        → Off after
        → Replaced (insert path (body ++ 10 ∷ []) (delete tmp after))
    insert-Replaced body after made off = (
      body,
      made,
      λ q.
          rw (lookup-insert path q (body ++ 10 ∷ []) (delete tmp after), delete-reads after q off)
            refl,
    )

    apart_sym : text_eq path tmp ≡ false
    apart_sym = ground (arith, text_eq_iff tmp path, text_eq_iff path tmp)

    -- Once more, without the temporary file, which is gone already.
    delete-Replaced : (after : Files) → Replaced after → Replaced (delete tmp after)
    delete-Replaced after (body, made, reads) =
        (body, made, λ q. rw (lookup-delete tmp q after) (go q (text_eq tmp q) refl))
      where
        go :
            (q : Text) (b : Bool)
            → text_eq tmp q ≡ b
            → (if b then none else lookup q after)
              ≡ (if text_eq path q then some (body ++ 10 ∷ []) else lookup q files)
        go q true same =
            subst
              (λ (x : Text).
                none ≡ (if text_eq path x then some (body ++ 10 ∷ []) else lookup x files))
              (text_eq_sound tmp q same) (rw (apart_sym, fresh) refl)
        go q false other = reads q

    remove_temp-Replaced :
        (o : Option Error) (after : Files) → Replaced after → Replaced (remove_temp o tmp after)
    unfolding remove_temp
    remove_temp-Replaced none after new = delete-Replaced after new
    remove_temp-Replaced (some e) after new = new

    fill-IsAtomic :
        (w : SaveWorld) (body : Text) (after : Files)
        → w.temp_path ≡ ok tmp
        → json.encode s ≡ ok body
        → Off after
        → IsAtomic w (fill json path w tmp (body ++ 10 ∷ []) after)
    unfolding fill replace
    fill-IsAtomic w body after there made off =
        let part = insert tmp (take w.written_part (body ++ 10 ∷ [])) after in
        let full = insert tmp (body ++ 10 ∷ []) after in
        let full-Off = insert-Off (body ++ 10 ∷ []) after off in
        let whole = remove_temp-Same w full there full-Off in
        let new = insert-Replaced body full made full-Off in
        step_cases (IsAtomic w) w.chmod_error _ _ _ (λ e. inl (remove_temp-Same w after there off))
          (step_cases (IsAtomic w) w.write_error _ _ _
            (λ e. inl (remove_temp-Same w part there (insert-Off _ after off)))
            (step_cases (IsAtomic w) w.sync_error _ _ _ (λ e. inl whole)
              (step_cases (IsAtomic w) w.close_error _ _ _ (λ e. inl whole)
                (step_cases (IsAtomic w) w.rename_error _ _ _ (λ e. inl whole)
                  (step_cases (IsAtomic w) w.final_chmod_error _ _ _
                    (λ e. inr (remove_temp-Replaced w.remove_error _ new)) new)))))

  -- A new temporary file does not stand yet, and is not the state's file.
  abbrev pub IsNewPath : Result Text → Type 0
  IsNewPath (ok tmp) = (text_eq tmp path ≡ false) × (lookup tmp files ≡ none)
  IsNewPath (err e) = Unit {0}

  unchanged : (w : SaveWorld) → Same w files
  unchanged w q = go q (is_left w.remove_error w.temp_path q)
    where
      go : (q : Text) (b : Bool) → lookup q files ≡ (if b then lookup q files else lookup q files)
      go q true = refl
      go q false = refl

  save_at-IsAtomic :
      (w : SaveWorld) (body : Text) (made : Result Text)
      → w.temp_path ≡ made
      → json.encode s ≡ ok body
      → IsNewPath made
      → IsAtomic w (save_at json path w body made files)
  unfolding save_at
  save_at-IsAtomic w body (err e) there encoded new = inl (unchanged w)
  save_at-IsAtomic w body (ok tmp) there encoded (apart, fresh) =
      fill-IsAtomic tmp apart fresh w body (insert tmp [] files) there encoded
        (insert-Off tmp apart fresh [] files λ q h. refl)

  save_data-IsAtomic :
      (w : SaveWorld) (encoded : Result Text)
      → json.encode s ≡ encoded
      → IsNewPath w.temp_path
      → IsAtomic w (save_data json path w encoded files)
  unfolding save_data
  save_data-IsAtomic w (err e) made new = inl (unchanged w)
  save_data-IsAtomic w (ok body) made new = save_at-IsAtomic w body w.temp_path refl made new

  -- Where a temporary file gets a new path, a Save that succeeds has put the whole new state in
  -- place of the state's file, and one that fails, at whichever call, has either done the same or
  -- changed nothing. In each case no other file is changed, and no temporary file is left, except
  -- where Save fails before the rename and the removal of the temporary file fails too.
  pub save-IsAtomic :
      (w : SaveWorld) → IsNewPath w.temp_path → IsAtomic w (save json path w s files)
  unfolding save
  save-IsAtomic w new =
      step_cases (IsAtomic w) w.mkdir_error _ _ _ (λ e. inl (unchanged w))
        (save_data-IsAtomic w (json.encode s) refl new)

  load-Replaced :
      (body : Text) (after : Files)
      → json.encode s ≡ ok body
      → json.decode (body ++ 10 ∷ []) ≡ ok s
      → Replaced after
      → load json path none after ≡ ok s
  unfolding load read_checked read_content decoded
  load-Replaced body after made back (other, made', reads) =
      rw (reads path, text_eq_refl path)
        (subst (λ (b : Text). decoded json path (json.decode (b ++ 10 ∷ [])) ≡ ok s) (sym same)
          (rw back refl))
    where
      same : other ≡ body
      same = cc

  -- What has been saved is loaded, where the decoder reads what the encoder writes, with a line feed
  -- at its end.
  pub load-save :
      (w : SaveWorld) (body : Text) (after : Files)
      → IsNewPath w.temp_path
      → json.encode s ≡ ok body
      → json.decode (body ++ 10 ∷ []) ≡ ok s
      → save json path w s files ≡ (ok tt, after)
      → load json path none after ≡ ok s
  load-save w body after new made back saved =
      load-Replaced body after made back (subst (IsAtomic w) saved (save-IsAtomic w new))

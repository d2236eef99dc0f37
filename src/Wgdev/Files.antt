-- ===== src/Wgdev/Files.antt =====
-- internal/wgdev/device.go: the temporary file that holds the private key.
use cfwg.Base.{
  false, List, [], ◌∷◌, ◌≡◌, refl, ◌∙◌, ap, Text, is_empty, text_eq_refl, Result, ok, err, arith,
}
use cfwg.Router.{RouteText}
use cfwg.System.{Runner, Command, Exec, proceed, ◌>>=◌, ◌>>◌}
use cfwg.Wgdev.{
  set_conf_text, DesiredConfig, TempFile, Host, remove_file, run_quiet, run_command, delete,
  add_addresses, address_command, apply, checked, write_set_conf, created, moded, written,
  configure, removed, configure_and_remove, validate_desired_config, remaining, link_add_command,
  set_conf_command, link_set_command, mtu_or_default, interface_addresses,
}

-- A program that leaves the temporary files as they are.
abbrev KeepsFiles : {A : Type 0} → Exec Host A → Type 0
KeepsFiles program = (host : Host) → ((program host).1).files ≡ host.files

then-KeepsFiles :
    {B : Type 0} (a : Exec Host (Unit {0})) (b : Exec Host B)
    → KeepsFiles a
    → KeepsFiles b
    → KeepsFiles (a >> b)
then-KeepsFiles a b p q host = go (a host) (p host)
  where
    go :
        (r : Result (Unit {0}) × Host)
        → (r.1).files ≡ host.files
        → ((proceed r λ u. b).1).files ≡ host.files
    go (ok u, after) same = q after ∙ same
    go (err e, after) same = same

-- Past a call that has left the files as they are.
through :
    {B : Type 0} (files : List Text) (x : Result (Unit {0}) × Host) (next : Exec Host B)
    → (x.1).files ≡ files
    → ((after : Host) → after.files ≡ files → ((next after).1).files ≡ files)
    → ((proceed x λ u. next).1).files ≡ files
through files (ok u, after) next same goes = goes after same
through files (err e, after) next same goes = same

pub valid_name :
    (cfg : DesiredConfig) → validate_desired_config cfg ≡ ok tt → is_empty cfg.name ≡ false
unfolding validate_desired_config
valid_name cfg valid = ground arith

module _ (runner : Runner) where
  run_quiet-KeepsFiles : (c : Command) → KeepsFiles (run_quiet runner c)
  unfolding run_quiet run_command
  run_quiet-KeepsFiles c host = go (runner host.commands c)
    where
      go :
          (r : Result Text)
          → ((proceed
              (r, record host { commands = c ∷ host.commands })
              λ output after. (ok tt, after)).1
            ).files
            ≡ host.files
      go (ok output) = refl
      go (err e) = refl

  add_addresses-KeepsFiles :
      (name : Text) (rest : List Text) → KeepsFiles (add_addresses runner name rest)
  unfolding add_addresses
  add_addresses-KeepsFiles name [] = λ host. refl
  add_addresses-KeepsFiles name (a ∷ rest) =
      then-KeepsFiles (run_quiet runner (address_command runner name a))
        (add_addresses runner name rest) (run_quiet-KeepsFiles (address_command runner name a))
        (add_addresses-KeepsFiles name rest)

  delete-KeepsFiles : (name : Text) → KeepsFiles (delete runner name)
  unfolding delete
  delete-KeepsFiles name host = ground arith

module _ (T : RouteText) (F : TempFile) (runner : Runner) (cfg : DesiredConfig) (host : Host) where
  configure-KeepsFiles : (path : Text) → KeepsFiles (configure T F runner cfg path)
  unfolding configure
  configure-KeepsFiles path =
      let addresses = add_addresses runner cfg.name (interface_addresses cfg) in
      let up = run_quiet runner (link_set_command cfg.name (mtu_or_default cfg.mtu)) in
      then-KeepsFiles (run_quiet runner (set_conf_command cfg.name path)) (addresses >> up)
        (run_quiet-KeepsFiles runner (set_conf_command cfg.name path))
        (then-KeepsFiles addresses up
          (add_addresses-KeepsFiles runner cfg.name (interface_addresses cfg))
          (run_quiet-KeepsFiles runner (link_set_command cfg.name (mtu_or_default cfg.mtu))))

  module _ (path : Text) (fresh : remove_file path host.files ≡ host.files)
      (made : F.create_temp cfg.name ≡ ok path) where
    removed_first : remove_file path (path ∷ host.files) ≡ host.files
    unfolding remove_file
    removed_first = rw (text_eq_refl path) fresh

    configure_and_remove_files :
        (after : Host)
        → F.remove path ≡ ok tt
        → after.files ≡ path ∷ host.files
        → ((configure_and_remove T F runner cfg path after).1).files ≡ host.files
    unfolding configure_and_remove removed remaining
    configure_and_remove_files after gone same =
        rw (configure-KeepsFiles path after, same, gone) removed_first

    after_link :
        (after : Host)
        → F.chmod path ≡ ok tt
        → F.write_string path (set_conf_text T cfg) ≡ ok tt
        → F.remove path ≡ ok tt
        → after.files ≡ host.files
        → ((proceed (write_set_conf T F runner cfg after) (configure_and_remove T F runner cfg)).1
          ).files
          ≡ host.files
    unfolding write_set_conf created moded written
    after_link after c w gone same =
        rw (made, c, w)
          (configure_and_remove_files (record after { files = path ∷ after.files }) gone
            (ap (λ (files : List Text). path ∷ files) same))

    checked_files :
        (r : Result (Unit {0}))
        → F.chmod path ≡ ok tt
        → F.write_string path (set_conf_text T cfg) ≡ ok tt
        → F.remove path ≡ ok tt
        → ((checked T F runner cfg r host).1).files ≡ host.files
    unfolding checked
    checked_files (err e) c w gone = refl
    checked_files (ok u) c w gone =
        let link = run_quiet runner (link_add_command cfg.name) in
        let rest = write_set_conf T F runner cfg >>= configure_and_remove T F runner cfg in
        through host.files (delete runner cfg.name host) (link >> rest)
          (delete-KeepsFiles runner cfg.name host)
          λ after same.
            through host.files (link after) rest
              (run_quiet-KeepsFiles runner (link_add_command cfg.name) after ∙ same)
              λ linked. after_link linked c w gone

    -- After Apply no temporary file is left that was not there before, whatever the commands do and
    -- whether Apply fails or not, provided that the file can be made, under a new path, that its mode
    -- can be set and its content written, and that it can be removed.
    pub apply-files :
        F.chmod path ≡ ok tt
        → F.write_string path (set_conf_text T cfg) ≡ ok tt
        → F.remove path ≡ ok tt
        → ((apply T F runner cfg host).1).files ≡ host.files
    unfolding apply
    apply-files c w gone = checked_files (validate_desired_config cfg) c w gone

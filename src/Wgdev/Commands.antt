-- ===== src/Wgdev/Commands.antt =====
-- internal/wgdev/device.go: the commands that Apply runs where every command succeeds.
use cfwg.Base.{List, [], ◌∷◌, ◌++◌, map, ◌≡◌, refl, Text, ok}
use cfwg.Router.{RouteText}
use cfwg.Router.Commands.{Succeeds, issued}
use cfwg.System.{Runner, Command, ◌>>◌}
use cfwg.Wgdev.{
  DesiredConfig, TempFile, Host, remove_file, run_quiet, run_command, delete, device_gone,
  delete_command, set_conf_text, add_addresses, address_command, apply, checked, write_set_conf,
  created, moded, written, configure, removed, remaining, configure_and_remove,
  validate_desired_config, link_add_command, set_conf_command, link_set_command, mtu_or_default,
  interface_addresses,
}
use cfwg.Wgdev.Files.{valid_name}

-- The commands of Apply, in their order.
abbrev pub apply_commands : Runner → DesiredConfig → Text → List Command
apply_commands runner cfg path =
    delete_command runner cfg.name
    ∷ link_add_command cfg.name
    ∷ set_conf_command cfg.name path
    ∷ (map (address_command runner cfg.name) (interface_addresses cfg)
        ++ link_set_command cfg.name (mtu_or_default cfg.mtu) ∷ [])

module _ (runner : Runner) (succeeds : Succeeds runner) where
  run_quiet_lem :
      (c : Command) (host : Host)
      → run_quiet runner c host ≡ (ok tt, record host { commands = c ∷ host.commands })
  unfolding run_quiet run_command
  run_quiet_lem c host = rw ((succeeds host.commands c).1) refl

  -- The addresses, and the command after them.
  add_addresses_lem :
      (name : Text) (addresses : List Text) (up : Command) (host : Host)
      → (add_addresses runner name addresses >> run_quiet runner up) host ≡ (
        ok tt,
        record host {
          commands = issued (map (address_command runner name) addresses ++ up ∷ []) host.commands;
        },
      )
  unfolding add_addresses
  add_addresses_lem name [] up host = run_quiet_lem up host
  add_addresses_lem name (a ∷ rest) up host =
      rw (run_quiet_lem (address_command runner name a) host) (
        add_addresses_lem name rest up
          (record host { commands = address_command runner name a ∷ host.commands }))

  module _ (T : RouteText) (F : TempFile) (cfg : DesiredConfig) (path : Text) (host : Host) where
    configure_lem : configure T F runner cfg path host ≡ (
      ok tt,
      record host {
        commands =
            issued
              (set_conf_command cfg.name path
                ∷ (map (address_command runner cfg.name) (interface_addresses cfg)
                    ++ link_set_command cfg.name (mtu_or_default cfg.mtu) ∷ []))
              host.commands;
      },
    )
    unfolding configure
    configure_lem = rw (run_quiet_lem (set_conf_command cfg.name path) host) (
        add_addresses_lem cfg.name (interface_addresses cfg)
          (link_set_command cfg.name (mtu_or_default cfg.mtu))
          (record host { commands = set_conf_command cfg.name path ∷ host.commands }))

  -- Where the settings of the device are valid, every command succeeds and the file can be written
  -- and removed, Apply succeeds. It deletes an old device of the name, adds the new one, loads the file, adds the
  -- addresses of the stack and brings the device up, in this order, and removes the file.
  pub apply_device_lem :
      (T : RouteText) (F : TempFile) (cfg : DesiredConfig) (path : Text) (host : Host)
      → validate_desired_config cfg ≡ ok tt
      → F.create_temp cfg.name ≡ ok path
      → F.chmod path ≡ ok tt
      → F.write_string path (set_conf_text T cfg) ≡ ok tt
      → F.remove path ≡ ok tt
      → apply T F runner cfg host ≡ (
        ok tt,
        record host {
          commands = issued (apply_commands runner cfg path) host.commands;
          files = remove_file path (path ∷ host.files);
        },
      )
  unfolding apply checked delete device_gone write_set_conf created moded written
      configure_and_remove removed remaining
  apply_device_lem T F cfg path host valid made c w gone =
      let linked = link_add_command cfg.name ∷ delete_command runner cfg.name ∷ host.commands in
      rw
        (
          valid,
          valid_name cfg valid,
          (succeeds host.commands (delete_command runner cfg.name)).1,
          run_quiet_lem (link_add_command cfg.name)
              (record host { commands = delete_command runner cfg.name ∷ host.commands }),
          made,
          c,
          w,
          configure_lem T F cfg path (record host { commands = linked; files = path ∷ host.files }),
          gone,
        )
        refl

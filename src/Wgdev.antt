-- ===== src/Wgdev.antt =====
-- internal/wgdev/device.go: the WireGuard device.
pub mod Files
pub mod Commands
use cfwg.Base.{
  ℕ, Bool, true, false, ◌&&◌, ◌||◌, not, String, List, [], ◌∷◌, ◌++◌, map, ◌==◌, if◌then◌else◌,
  Text, str, is_empty, contains_text, text_eq, Result, ok, err, Error, message, wrap,
}
use cfwg.Net.Decimal.{ℤ, pos, negsuc, itoa_int}
use cfwg.Config.{StackMode, stack_dual, stack4, stack6}
use cfwg.Routes.{Prefix, default_route_v4, default_route_v6}
use cfwg.Router.{RouteText}
use cfwg.System.{Command, Runner, error_contains, Exec, proceed, ◌>>=◌, ◌>>◌, done, fail_with}

pub record DesiredConfig : Type 0 where
  pub name : Text
  pub stack_mode : StackMode
  pub private_key : Text
  pub address_v4 : Text
  pub address_v6 : Text
  pub peer_public_key : Text
  pub endpoint : Text
  pub mtu : ℤ

unfoldable pub allowed_ips : StackMode → List Prefix
allowed_ips stack4 = default_route_v4 ∷ []
allowed_ips stack6 = default_route_v6 ∷ []
allowed_ips stack_dual = default_route_v4 ∷ default_route_v6 ∷ []

address_with : Text → String → List Text
address_with address suffix = if is_empty address then [] else (address ++ str suffix) ∷ []

addresses_of : StackMode → Text → Text → List Text
unfolding address_with
addresses_of stack4 v4 v6 = address_with v4 "/32"
addresses_of stack6 v4 v6 = address_with v6 "/128"
addresses_of stack_dual v4 v6 = address_with v4 "/32" ++ address_with v6 "/128"

unfoldable pub interface_addresses : DesiredConfig → List Text
unfolding addresses_of
interface_addresses cfg = addresses_of cfg.stack_mode cfg.address_v4 cfg.address_v6

unfoldable pub validate_desired_config : DesiredConfig → Result (Unit {0})
validate_desired_config cfg =
    if is_empty cfg.name
    then err (message "interface name is required")
    else if is_empty cfg.private_key
    then err (message "private key is required")
    else if is_empty cfg.peer_public_key
    then err (message "peer public key is required")
    else if is_empty cfg.endpoint
    then err (message "peer endpoint is required")
    else if is_empty (interface_addresses cfg)
    then err (message "at least one interface address is required")
    else ok tt

-- What the system makes of a temporary file: its path, by the name of the device, whether its mode is
-- set and its content written, and whether it is removed.
pub record TempFile : Type 0 where
  pub create_temp : Text → Result Text
  pub chmod : Text → Result (Unit {0})
  pub write_string : Text → Text → Result (Unit {0})
  pub remove : Text → Result (Unit {0})

-- The commands that have been run, newest first, and the temporary files that stand.
pub record Host : Type 0 where
  pub commands : List Command
  pub files : List Text

unfoldable pub remove_file : Text → List Text → List Text
remove_file path [] = []
remove_file path (file ∷ files) =
    let rest = remove_file path files in if text_eq file path then rest else file ∷ rest

joined_ips : List Text → Text
joined_ips [] = []
joined_ips (ip ∷ []) = ip
joined_ips (ip ∷ next ∷ ips) = ip ++ (str ", " ++ joined_ips (next ∷ ips))

unfoldable pub set_conf_text : RouteText → DesiredConfig → Text
unfolding joined_ips
set_conf_text T cfg =
    str "[Interface]\nPrivateKey = "
    ++ (cfg.private_key
        ++ (str "\n[Peer]\nPublicKey = "
            ++ (cfg.peer_public_key
                ++ (str "\nAllowedIPs = "
                    ++ (joined_ips (map T.prefix_string (allowed_ips cfg.stack_mode))
                        ++ (str "\nEndpoint = " ++ (cfg.endpoint ++ str "\n")))))))

module _ (runner : Runner) where
  unfoldable pub run_command : Command → Exec Host Text
  run_command command host =
      (runner host.commands command, record host { commands = command ∷ host.commands })

  unfoldable pub run_quiet : Command → Exec Host (Unit {0})
  unfolding run_command
  run_quiet command = run_command command >>= λ output. done

  device_gone : Result Text → Result (Unit {0})
  device_gone (ok output) = ok tt
  device_gone (err e) =
      if error_contains e "Cannot find device" || error_contains e "does not exist"
      then ok tt
      else err e

  abbrev pub delete_command : Text → Command
  delete_command name = str "ip" ∷ str "link" ∷ str "del" ∷ str "dev" ∷ name ∷ []

  pub delete : Text → Exec Host (Unit {0})
  unfolding device_gone
  delete name host = if is_empty name then (err (message "interface name is required"), host) else (
    device_gone (runner host.commands (delete_command name)),
    record host { commands = delete_command name ∷ host.commands },
  )

  abbrev pub address_command : Text → Text → Command
  address_command name address =
      str "ip"
      ∷ ((if contains_text address (str ":") then str "-6" ∷ [] else [])
          ++ str "address" ∷ str "add" ∷ address ∷ str "dev" ∷ name ∷ [])

  add_addresses : Text → List Text → Exec Host (Unit {0})
  add_addresses name [] = done
  add_addresses name (address ∷ addresses) =
      run_quiet (address_command name address) >> add_addresses name addresses

abbrev pub mtu_or_default : ℤ → ℤ
mtu_or_default (pos n) = if n == 0 then pos 1280 else pos n
mtu_or_default (negsuc n) = negsuc n

abbrev pub link_add_command : Text → Command
link_add_command name =
    str "ip" ∷ str "link" ∷ str "add" ∷ str "dev" ∷ name ∷ str "type" ∷ str "wireguard" ∷ []

abbrev pub set_conf_command : Text → Text → Command
set_conf_command name path = str "wg" ∷ str "setconf" ∷ name ∷ path ∷ []

abbrev pub link_set_command : Text → ℤ → Command
link_set_command name mtu =
    str "ip" ∷ str "link" ∷ str "set" ∷ str "dev" ∷ name ∷ str "mtu" ∷ itoa_int mtu ∷ str "up" ∷ []

module _ (T : RouteText) (F : TempFile) (runner : Runner) where
  written : Text → Result (Unit {0}) → Result Text
  written path (ok u) = ok path
  written path (err e) = err (wrap "write wireguard config" e)

  moded : Text → DesiredConfig → Result (Unit {0}) → Result Text
  unfolding written
  moded path cfg (ok u) = written path (F.write_string path (set_conf_text T cfg))
  moded path cfg (err e) = err (wrap "chmod wireguard config" e)

  created : DesiredConfig → Result Text → Exec Host Text
  unfolding moded
  created cfg (err e) host = (err (wrap "create wireguard config" e), host)
  created cfg (ok path) host =
      (moded path cfg (F.chmod path), record host { files = path ∷ host.files })

  write_set_conf : DesiredConfig → Exec Host Text
  unfolding created
  write_set_conf cfg = created cfg (F.create_temp cfg.name)

  configure : DesiredConfig → Text → Exec Host (Unit {0})
  configure cfg path =
      run_quiet runner (set_conf_command cfg.name path)
      >> (add_addresses runner cfg.name (interface_addresses cfg)
          >> run_quiet runner (link_set_command cfg.name (mtu_or_default cfg.mtu)))

  -- `defer os.Remove(path)`, whose error is not looked at.
  remaining : Text → Result (Unit {0}) → List Text → List Text
  remaining path (ok u) files = remove_file path files
  remaining path (err e) files = files

  removed : Text → Result (Unit {0}) × Host → Result (Unit {0}) × Host
  unfolding remaining
  removed path (r, host) = (r, record host { files = remaining path (F.remove path) host.files })

  configure_and_remove : DesiredConfig → Text → Exec Host (Unit {0})
  unfolding removed configure
  configure_and_remove cfg path host = removed path (configure cfg path host)

  checked : DesiredConfig → Result (Unit {0}) → Exec Host (Unit {0})
  unfolding configure_and_remove
  checked cfg (err e) host = (err e, host)
  checked cfg (ok u) host =
      (delete runner cfg.name
          >> (run_quiet runner (link_add_command cfg.name)
              >> (write_set_conf cfg >>= configure_and_remove cfg)))
        host

  -- `m.Runner` is not nil.
  pub apply : DesiredConfig → Exec Host (Unit {0})
  unfolding checked
  apply cfg = checked cfg (validate_desired_config cfg)

-- ===== src/Router.antt =====
-- internal/router/router.go: the manager that sets routes and takes them back.
pub mod Original
pub mod Commands
use cfwg.Base.{
  ℕ, Bool, true, false, ◌&&◌, not, String, Option, none, some, List, [], ◌∷◌, ◌++◌, ◌==◌,
  if◌then◌else◌, Text, str, is_empty, text_eq, take, drop, length, Result, ok, err, Error, message,
  message_text, wrap,
}
use cfwg.Routes.{
  Addr, invalid, addr4, addr6, is_valid, is6, unmap, Prefix, default_route_v4, default_route_v6,
  Plan, tunnel_routes, build_plan,
}
use cfwg.System.{Command, Runner, error_contains, Exec, proceed, ◌>>=◌, ◌>>◌, done, fail_with}

pub record DefaultRoute : Type 0 where
  pub dst : Text
  pub gateway : Text
  pub dev : Text

-- The Manager, and the commands that have been run, newest first.
pub record Manager : Type 0 where
  pub original_v4 : Option DefaultRoute
  pub original_v6 : Option DefaultRoute
  pub bypass : List Prefix
  pub commands : List Command

-- What the standard library makes of text: `prefix.String()`, and the JSON of the ip command.
pub record RouteText : Type 0 where
  pub prefix_string : Prefix → Text
  pub decode_routes : Text → Result (List DefaultRoute)

abbrev pub opt_args : String → Text → Command
opt_args flag value = if is_empty value then [] else str flag ∷ value ∷ []

abbrev pub v6_flag : Bool → Command
v6_flag v6 = if v6 then str "-6" ∷ [] else []

abbrev via_dev : DefaultRoute → Command
via_dev r = opt_args "via" r.gateway ++ opt_args "dev" r.dev

unfoldable pub restore_command : Bool → DefaultRoute → Command
restore_command v6 r =
    str "ip" ∷ (v6_flag v6 ++ str "route" ∷ str "replace" ∷ str "default" ∷ via_dev r)

unfoldable pub tunnel_command : Text → Bool → Command
tunnel_command interface v6 =
    str "ip"
    ∷ (v6_flag v6 ++ str "route" ∷ str "replace" ∷ str "default" ∷ str "dev" ∷ interface ∷ [])

unfoldable pub show_command : Bool → Command
show_command v6 =
    str "ip" ∷ str "-j" ∷ (v6_flag v6 ++ str "route" ∷ str "show" ∷ str "default" ∷ [])

module _ (T : RouteText) where
  unfoldable pub route_command : String → Prefix → DefaultRoute → Command
  route_command action prefix r =
      str "ip"
      ∷ (v6_flag (is6 prefix.addr) ++ str "route" ∷ str action ∷ T.prefix_string prefix ∷ via_dev r)

  unfoldable pub delete_command : Prefix → Command
  delete_command prefix =
      str "ip"
      ∷ (v6_flag (is6 prefix.addr) ++ str "route" ∷ str "del" ∷ T.prefix_string prefix ∷ [])

module _ (runner : Runner) where
  unfoldable pub run_command : Command → Exec Manager Text
  run_command command m = (runner m.commands command, record m { commands = command ∷ m.commands })

  unfoldable pub run_quiet : Command → Exec Manager (Unit {0})
  unfolding run_command
  run_quiet command = run_command command >>= λ _. done

module _ (T : RouteText) (runner : Runner) where
  first_route : List DefaultRoute → Option DefaultRoute
  first_route [] = none
  first_route (r ∷ routes) = some r

  decoded : Result (List DefaultRoute) → Result (Option DefaultRoute)
  unfolding first_route
  decoded (ok routes) = ok (first_route routes)
  decoded (err e) = err (wrap "decode default routes" e)

  discovered : Bool → Result Text → Result (Option DefaultRoute)
  unfolding decoded
  discovered v6 (ok output) = decoded (T.decode_routes output)
  discovered v6 (err e) = if v6 && error_contains e "ipv6" then ok none else err e

  discover_default_route : Bool → Exec Manager (Option DefaultRoute)
  unfolding discovered
  discover_default_route v6 m =
      let command = show_command v6 in
      (discovered v6 (runner m.commands command), record m { commands = command ∷ m.commands })

  ensure_original_v4 : Option DefaultRoute → Exec Manager (Unit {0})
  ensure_original_v4 (some r) = done
  ensure_original_v4 none =
      discover_default_route false >>= λ r m. (ok tt, record m { original_v4 = r })

  ensure_original_v6 : Option DefaultRoute → Exec Manager (Unit {0})
  ensure_original_v6 (some r) = done
  ensure_original_v6 none =
      discover_default_route true >>= λ r m. (ok tt, record m { original_v6 = r })

  apply_route : Prefix → Option DefaultRoute → Exec Manager (Unit {0})
  apply_route prefix none =
      fail_with (message_text "missing original route for" (T.prefix_string prefix))
  apply_route prefix (some r) = run_quiet runner (route_command T "replace" prefix r)

  selected_original_route : Prefix → Option DefaultRoute → Option DefaultRoute → Option DefaultRoute
  selected_original_route prefix v4 v6 = if is6 prefix.addr then v6 else v4

  apply_bypasses : List Prefix → Exec Manager (Unit {0})
  unfolding selected_original_route apply_route
  apply_bypasses [] m = (ok tt, m)
  apply_bypasses (prefix ∷ prefixes) m =
      proceed (apply_route prefix (selected_original_route prefix m.original_v4 m.original_v6) m)
        λ _. apply_bypasses prefixes

  apply_tunnels : Text → List Prefix → Exec Manager (Unit {0})
  apply_tunnels interface [] = done
  apply_tunnels interface (prefix ∷ prefixes) =
      run_quiet runner (tunnel_command interface (is6 prefix.addr))
      >> apply_tunnels interface prefixes

  record_bypass : List Prefix → Exec Manager (Unit {0})
  record_bypass prefixes m = (ok tt, record m { bypass = prefixes })

  apply_named : Text → Plan → Exec Manager (Unit {0})
  apply_named interface plan m =
      (do
        ensure_original_v4 m.original_v4
        ensure_original_v6 m.original_v6
        apply_bypasses plan.bypass_routes
        record_bypass plan.bypass_routes
        apply_tunnels interface plan.tunnel_routes)
        m

  -- `m.Runner` is not nil.
  pub apply : Text → Plan → Exec Manager (Unit {0})
  unfolding apply_named
  apply interface plan m =
      if is_empty interface
      then (err (message "interface name is required"), m)
      else apply_named interface plan m

  deleted : Result Text → Result (Unit {0})
  deleted (ok output) = ok tt
  deleted (err e) = if error_contains e "No such process" then ok tt else err e

  delete_route : Prefix → Exec Manager (Unit {0})
  unfolding deleted
  delete_route prefix m =
      let command = delete_command T prefix in
      (deleted (runner m.commands command), record m { commands = command ∷ m.commands })

  delete_bypasses : List Prefix → Exec Manager (Unit {0})
  unfolding delete_route
  delete_bypasses [] = done
  delete_bypasses (prefix ∷ prefixes) = delete_route prefix >> delete_bypasses prefixes

  restore_default_route : Bool → Option DefaultRoute → Exec Manager (Unit {0})
  restore_default_route v6 none = done
  restore_default_route v6 (some r) = run_quiet runner (restore_command v6 r)

  pub cleanup : Exec Manager (Unit {0})
  cleanup m =
      (do
        delete_bypasses m.bypass
        record_bypass []
        restore_default_route false m.original_v4
        restore_default_route true m.original_v6)
        m

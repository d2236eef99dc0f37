-- ===== src/Router/Commands.antt =====
-- internal/router/router.go: the commands that Apply and Cleanup run where every command succeeds.
use cfwg.Base.{
  Bool, true, false, Option, none, some, List, [], ◌∷◌, ◌++◌, map, ◌≡◌, refl, Text, is_empty, ok,
  if◌then◌else◌,
}
use cfwg.System.{Runner, Command}
use cfwg.Routes.{Prefix, Plan, is6}
use cfwg.Router.{
  Manager, DefaultRoute, RouteText, apply, apply_named, apply_bypasses, apply_route, apply_tunnels,
  record_bypass, ensure_original_v4, ensure_original_v6, run_quiet, run_command,
  selected_original_route, tunnel_command, route_command, cleanup, delete_bypasses, delete_route,
  deleted, delete_command, restore_default_route, restore_command,
}

-- The commands after `cs` have been run, the first of them first.
abbrev pub issued : List Command → List Command → List Command
issued [] before = before
issued (c ∷ cs) before = issued cs (c ∷ before)

issued-append :
    (cs ds before : List Command) → issued ds (issued cs before) ≡ issued (cs ++ ds) before
issued-append [] ds before = refl
issued-append (c ∷ cs) ds before = issued-append cs ds (c ∷ before)

abbrev after_commands : List Command → Manager → Manager
after_commands cs m = record m { commands = issued cs m.commands }

abbrev pub original_command : Bool → Option DefaultRoute → List Command
original_command v6 none = []
original_command v6 (some r) = restore_command v6 r ∷ []

abbrev pub Succeeds : Runner → Type 0
Succeeds runner =
    (before : List Command) (c : Command) → (output : Text) × (runner before c ≡ ok output)

-- A bypass route goes by the original route of its family.
abbrev pub bypass_command : RouteText → DefaultRoute → DefaultRoute → Prefix → Command
bypass_command T r4 r6 p = route_command T "replace" p (if is6 p.addr then r6 else r4)

-- A manager that knows both original routes.
abbrev pub knowing : DefaultRoute → DefaultRoute → List Prefix → List Command → Manager
knowing r4 r6 bypass before = record {
  original_v4 = some r4;
  original_v6 = some r6;
  bypass = bypass;
  commands = before;
}

module _ (T : RouteText) (runner : Runner) (succeeds : Succeeds runner) where
  run_quiet_lem :
      (c : Command) (m : Manager) → run_quiet runner c m ≡ (ok tt, after_commands (c ∷ []) m)
  unfolding run_quiet run_command
  run_quiet_lem c m = rw ((succeeds m.commands c).1) refl

  delete_bypasses_lem :
      (ps : List Prefix) (m : Manager)
      → delete_bypasses T runner ps m ≡ (ok tt, after_commands (map (delete_command T) ps) m)
  unfolding delete_bypasses delete_route deleted
  delete_bypasses_lem [] m = refl
  delete_bypasses_lem (p ∷ ps) m =
      rw ((succeeds m.commands (delete_command T p)).1)
        (delete_bypasses_lem ps (after_commands (delete_command T p ∷ []) m))

  restore_default_route_lem :
      (v6 : Bool) (o : Option DefaultRoute) (m : Manager)
      → restore_default_route T runner v6 o m ≡ (ok tt, after_commands (original_command v6 o) m)
  unfolding restore_default_route
  restore_default_route_lem v6 none m = refl
  restore_default_route_lem v6 (some r) m = run_quiet_lem (restore_command v6 r) m

  apply_tunnels_lem :
      (interface : Text) (ps : List Prefix) (m : Manager)
      → apply_tunnels T runner interface ps m
        ≡ (ok tt, after_commands (map (λ p. tunnel_command interface (is6 p.addr)) ps) m)
  unfolding apply_tunnels
  apply_tunnels_lem interface [] m = refl
  apply_tunnels_lem interface (p ∷ ps) m =
      rw (run_quiet_lem (tunnel_command interface (is6 p.addr)) m)
        (apply_tunnels_lem interface ps _)

  pub cleanup_lem_at :
      (m : Manager)
      → cleanup T runner m ≡ (
        ok tt,
        record m {
          bypass = [];
          commands = issued (original_command true m.original_v6) (
              issued
                (original_command false m.original_v4)
                (issued (map (delete_command T) m.bypass) m.commands));
        },
      )
  unfolding cleanup record_bypass
  cleanup_lem_at m = rw (delete_bypasses_lem m.bypass m) (
      rw
        (restore_default_route_lem false m.original_v4 (record m {
          bypass = [];
          commands = issued (map (delete_command T) m.bypass) m.commands;
        }))
        (restore_default_route_lem true m.original_v6 _))

  -- Where every command succeeds, Cleanup deletes the bypass routes in their order, then puts back
  -- the original IPv4 route and the original IPv6 route where they are known, and forgets the
  -- bypass routes.
  pub cleanup_lem :
      (m : Manager)
      → cleanup T runner m ≡ (
        ok tt,
        record m {
          bypass = [];
          commands =
              issued
                (map (delete_command T) m.bypass
                  ++ (original_command false m.original_v4 ++ original_command true m.original_v6))
                m.commands;
        },
      )
  cleanup_lem m =
      rw⁻¹
        (
          issued-append (map (delete_command T) m.bypass)
              (original_command false m.original_v4 ++ original_command true m.original_v6)
              m.commands,
          issued-append (original_command false m.original_v4) (original_command true m.original_v6)
              (issued (map (delete_command T) m.bypass) m.commands),
        )
        (cleanup_lem_at m)

  module _ (r4 r6 : DefaultRoute) where
    apply_route_choice :
        (v6 : Bool) (p : Prefix) (m : Manager)
        → apply_route T runner p (if v6 then some r6 else some r4) m
          ≡ (ok tt, after_commands (route_command T "replace" p (if v6 then r6 else r4) ∷ []) m)
    unfolding apply_route
    apply_route_choice true p m = run_quiet_lem (route_command T "replace" p r6) m
    apply_route_choice false p m = run_quiet_lem (route_command T "replace" p r4) m

    apply_bypasses_lem :
        (ps bypass : List Prefix) (before : List Command)
        → apply_bypasses T runner ps (knowing r4 r6 bypass before)
          ≡ (ok tt, knowing r4 r6 bypass (issued (map (bypass_command T r4 r6) ps) before))
    unfolding apply_bypasses selected_original_route
    apply_bypasses_lem [] bypass before = refl
    apply_bypasses_lem (p ∷ ps) bypass before =
        rw (apply_route_choice (is6 p.addr) p (knowing r4 r6 bypass before))
          (apply_bypasses_lem ps bypass (bypass_command T r4 r6 p ∷ before))

    apply_named_lem :
        (interface : Text) (plan : Plan) (bypass : List Prefix) (before : List Command)
        → apply_named T runner interface plan (knowing r4 r6 bypass before) ≡ (
          ok tt,
          knowing r4 r6 plan.bypass_routes (
              issued
                (map (λ p. tunnel_command interface (is6 p.addr)) plan.tunnel_routes)
                (issued (map (bypass_command T r4 r6) plan.bypass_routes) before)),
        )
    unfolding apply_named record_bypass ensure_original_v4 ensure_original_v6
    apply_named_lem interface plan bypass before =
        rw (apply_bypasses_lem plan.bypass_routes bypass before)
          (apply_tunnels_lem interface plan.tunnel_routes _)

    -- Where every command succeeds and both original routes are known, Apply to a named interface
    -- first leads each bypass route by the original route of its own family, then the default
    -- routes of the plan into the interface, and records the bypass routes for Cleanup.
    pub apply_lem :
        (interface : Text) (plan : Plan) (bypass : List Prefix) (before : List Command)
        → is_empty interface ≡ false
        → apply T runner interface plan (knowing r4 r6 bypass before) ≡ (
          ok tt,
          knowing r4 r6 plan.bypass_routes (
              issued
                (map (bypass_command T r4 r6) plan.bypass_routes
                  ++ map (λ p. tunnel_command interface (is6 p.addr)) plan.tunnel_routes)
                before),
        )
    unfolding apply
    apply_lem interface plan bypass before given =
        rw⁻¹
          (issued-append (map (bypass_command T r4 r6) plan.bypass_routes)
            (map (λ p. tunnel_command interface (is6 p.addr)) plan.tunnel_routes) before)
          (rw given (apply_named_lem interface plan bypass before))

-- ===== src/Router/Original.antt =====
-- internal/router/router.go: the routes that Apply remembers from before the tunnel.
use cfwg.Base.{
  Bool, true, false, Option, none, some, List, [], ◌∷◌, ◌≡◌, Text, is_empty, Result, ok, err,
  if◌then◌else◌,
}
use cfwg.System.{Runner, Exec, proceed, ◌>>◌, Command}
use cfwg.Routes.{Prefix, Plan, is6}
use cfwg.Router.{
  Manager, DefaultRoute, RouteText, apply, apply_named, apply_bypasses, apply_route, apply_tunnels,
  record_bypass, ensure_original_v4, ensure_original_v6, run_quiet, run_command, tunnel_command,
  route_command, cleanup, delete_bypasses, delete_route, restore_default_route, restore_command,
  discover_default_route,
}

-- A predicate on the manager that a program keeps, whether it fails or not.
abbrev Keeps : {A : Type 0} → (Manager → Type 0) → Exec Manager A → Type 0
Keeps P program = (m : Manager) → P m → P ((program m).1)

module _ (P : Manager → Type 0) where
  proceed-Keeps :
      {A B : Type 0} (x : Result A × Manager) (f : A → Exec Manager B)
      → P (x.1)
      → ((a : A) → Keeps P (f a))
      → P ((proceed x f).1)
  proceed-Keeps (ok a, m) f p k = k a m p
  proceed-Keeps (err e, m) f p k = p

  then-Keeps :
      {B : Type 0} (a : Exec Manager (Unit {0})) (b : Exec Manager B)
      → Keeps P a
      → Keeps P b
      → Keeps P (a >> b)
  then-Keeps a b p q m h = proceed-Keeps (a m) (λ u. b) (p m h) λ u. q

  if-Keeps :
      {A : Type 0} (b : Bool) (x y : Result A × Manager)
      → P (x.1)
      → P (y.1)
      → P ((if b then x else y).1)
  if-Keeps true x y p q = p
  if-Keeps false x y p q = q

-- A predicate that does not read the commands nor the bypass routes.
module _ (T : RouteText) (runner : Runner) (P : Manager → Type 0)
    (on_command : (c : List Command) (m : Manager) → P m → P (record m { commands = c }))
    (on_bypass : (ps : List Prefix) → Keeps P (record_bypass T runner ps)) where
  run_quiet-Keeps : (c : Command) → Keeps P (run_quiet runner c)
  unfolding run_quiet run_command
  run_quiet-Keeps c m p =
      proceed-Keeps P (runner m.commands c, record m { commands = c ∷ m.commands }) _
        (on_command (c ∷ m.commands) m p) λ u k q. q

  apply_route-Keeps :
      (prefix : Prefix) (o : Option DefaultRoute) → Keeps P (apply_route T runner prefix o)
  unfolding apply_route
  apply_route-Keeps prefix none m p = p
  apply_route-Keeps prefix (some r) m p = run_quiet-Keeps (route_command T "replace" prefix r) m p

  apply_bypasses-Keeps : (ps : List Prefix) → Keeps P (apply_bypasses T runner ps)
  unfolding apply_bypasses
  apply_bypasses-Keeps [] m p = p
  apply_bypasses-Keeps (prefix ∷ ps) m p =
      proceed-Keeps P _ _ (apply_route-Keeps prefix _ m p) λ u. apply_bypasses-Keeps ps

  apply_tunnels-Keeps :
      (interface : Text) (ps : List Prefix) → Keeps P (apply_tunnels T runner interface ps)
  unfolding apply_tunnels
  apply_tunnels-Keeps interface [] m p = p
  apply_tunnels-Keeps interface (prefix ∷ ps) m p =
      proceed-Keeps P _ _ (run_quiet-Keeps (tunnel_command interface (is6 prefix.addr)) m p)
        λ u. apply_tunnels-Keeps interface ps

  delete_bypasses-Keeps : (ps : List Prefix) → Keeps P (delete_bypasses T runner ps)
  unfolding delete_bypasses delete_route
  delete_bypasses-Keeps [] m p = p
  delete_bypasses-Keeps (prefix ∷ ps) m p =
      proceed-Keeps P _ _ (on_command _ m p) λ u. delete_bypasses-Keeps ps

  restore_default_route-Keeps :
      (v6 : Bool) (o : Option DefaultRoute) → Keeps P (restore_default_route T runner v6 o)
  unfolding restore_default_route
  restore_default_route-Keeps v6 none m p = p
  restore_default_route-Keeps v6 (some r) m p = run_quiet-Keeps (restore_command v6 r) m p

  cleanup-Keeps : Keeps P (cleanup T runner)
  unfolding cleanup
  cleanup-Keeps m =
      let back4 = restore_default_route T runner false m.original_v4 in
      let back6 = restore_default_route T runner true m.original_v6 in
      let clear = record_bypass T runner [] in
      then-Keeps P (delete_bypasses T runner m.bypass) (clear >> (back4 >> back6))
        (delete_bypasses-Keeps m.bypass)
        (then-Keeps P clear (back4 >> back6) (on_bypass []) (
          then-Keeps P back4 back6 (restore_default_route-Keeps false m.original_v4)
            (restore_default_route-Keeps true m.original_v6)))
        m

  apply-Keeps :
      (interface : Text) (plan : Plan) (m : Manager)
      → Keeps P (ensure_original_v4 T runner m.original_v4)
      → Keeps P (ensure_original_v6 T runner m.original_v6)
      → P m
      → P ((apply T runner interface plan m).1)
  unfolding apply apply_named
  apply-Keeps interface plan m k4 k6 p =
      let ensure4 = ensure_original_v4 T runner m.original_v4 in
      let ensure6 = ensure_original_v6 T runner m.original_v6 in
      let around = apply_bypasses T runner plan.bypass_routes in
      let note = record_bypass T runner plan.bypass_routes in
      let into = apply_tunnels T runner interface plan.tunnel_routes in
      if-Keeps P (is_empty interface) _ (apply_named T runner interface plan m) p (
        then-Keeps P ensure4 (ensure6 >> (around >> (note >> into))) k4
          (then-Keeps P ensure6 (around >> (note >> into)) k6 (
            then-Keeps P around (note >> into) (apply_bypasses-Keeps plan.bypass_routes) (
              then-Keeps P note into (on_bypass plan.bypass_routes)
                (apply_tunnels-Keeps interface plan.tunnel_routes))))
          m p)

-- The original route of a family.
abbrev pub known_route : Bool → Manager → Option DefaultRoute
known_route false m = m.original_v4
known_route true m = m.original_v6

module _ (T : RouteText) (runner : Runner) (r : DefaultRoute) where
  Knows : Bool → Manager → Type 0
  Knows v6 m = known_route v6 m ≡ some r

  discovered6 : (o : Option DefaultRoute) → Keeps (Knows false) (ensure_original_v6 T runner o)
  unfolding Knows ensure_original_v6 discover_default_route
  discovered6 (some r6) m p = p
  discovered6 none m p =
      proceed-Keeps (Knows false) (discover_default_route T runner true m) _ p λ o k q. q

  discovered4 : (o : Option DefaultRoute) → Keeps (Knows true) (ensure_original_v4 T runner o)
  unfolding Knows ensure_original_v4 discover_default_route
  discovered4 (some r4) m p = p
  discovered4 none m p =
      proceed-Keeps (Knows true) (discover_default_route T runner false m) _ p λ o k q. q

  remembered4 :
      (o : Option DefaultRoute) → o ≡ some r → Keeps (Knows false) (ensure_original_v4 T runner o)
  unfolding ensure_original_v4
  remembered4 (some r4) e m p = p
  remembered4 none e m p = cc

  remembered6 :
      (o : Option DefaultRoute) → o ≡ some r → Keeps (Knows true) (ensure_original_v6 T runner o)
  unfolding ensure_original_v6
  remembered6 (some r6) e m p = p
  remembered6 none e m p = cc

  -- An original default route, of either family, that the manager knows stays what it is through
  -- Apply and through Cleanup, whatever the commands do and wherever they fail: a second Apply does
  -- not take the tunnel's own route for it.
  pub original_route_kept :
      (v6 : Bool) (interface : Text) (plan : Plan) (m : Manager)
      → known_route v6 m ≡ some r
      → (known_route v6 ((apply T runner interface plan m).1) ≡ some r)
        × (known_route v6 ((cleanup T runner m).1) ≡ some r)
  unfolding Knows record_bypass
  original_route_kept false interface plan m p = (
    apply-Keeps T runner (Knows false) (λ c k q. q) (λ ps k q. q) interface plan m
        (remembered4 m.original_v4 p) (discovered6 m.original_v6) p,
    cleanup-Keeps T runner (Knows false) (λ c k q. q) (λ ps k q. q) m p,
  )
  original_route_kept true interface plan m p = (
    apply-Keeps T runner (Knows true) (λ c k q. q) (λ ps k q. q) interface plan m
        (discovered4 m.original_v4) (remembered6 m.original_v6 p) p,
    cleanup-Keeps T runner (Knows true) (λ c k q. q) (λ ps k q. q) m p,
  )

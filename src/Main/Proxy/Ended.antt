-- ===== src/Main/Proxy/Ended.antt =====
-- runSOCKS5Server of cmd/warp-socksd/main.go: what is open when the proxy process has ended.
use cfwg.Base.{◌≡◌, false, Option, none, some, [], Result, ok, err}
use cfwg.Socks5.ProxyFile
use cfwg.Socks5.Listener.{Listener}
use cfwg.Socks5.Listener.Close.{listens}

-- The process has no socket open; if it ended without an error, its table is empty.
abbrev pub Ended : Result (Unit {0}) × Option Listener → Type 0
Ended (r, none) = Unit {0}
Ended (err e, some s) = (listens s.tcp ≡ false) × (listens s.udp ≡ false)
Ended (ok u, some s) = (listens s.tcp ≡ false) × (listens s.udp ≡ false) × (s.associations ≡ [])

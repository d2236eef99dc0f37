-- ===== src/Legacy.antt =====
-- cmd/warp-socksd/legacy_backend.go: the backend that runs the tunnel by WireGuard.
pub mod Endpoint
pub mod Device
pub mod Bootstrap
pub mod Network
pub mod Service

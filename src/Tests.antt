-- ===== src/Tests.antt =====
-- Runs of the definitions, and the theorems at concrete inputs.
mod Ip
mod Wire
mod Table
mod Router
mod App
mod Config
mod Legacy
mod Wgdev
mod Process
mod Store
mod Prober
mod Handler
mod Datagram
mod Api
mod Proxy
mod Dial
mod Service
mod Health
mod Wiring

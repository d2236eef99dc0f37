-- ===== src/Net.antt =====
-- What the code uses of Go's packages net and strconv: addresses with ports, decimal numbers, and
-- the text form of IP addresses.
pub mod Decimal
pub mod HostPort
pub mod Ip

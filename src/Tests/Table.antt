-- ===== src/Tests/Table.antt =====
-- The table of UDP associations at concrete addresses.
use cfwg.Base.{refl, some, [], ◌∷◌}
use cfwg.Base.TextMap.{lookup}
use cfwg.Net.Decimal.{pos}
use cfwg.Socks5.Associations.{UdpAddr, Association, Table, addr_key, association_for_source}
use cfwg.Socks5.Associations.Invariant.{IsTable}
use cfwg.Socks5.Associations.Refines.{FindsIn, association_for_source-FindsIn}
use cfwg.Tests.Ip.{shifted_ip}

-- A client that names no address of its own, as RFC 1928 allows.
abbrev own : UdpAddr
own = record { ip = some (172 ∷ 18 ∷ 0 ∷ 1 ∷ []); port = pos 0; zone = [] }

abbrev source : UdpAddr
source = record { ip = some (172 ∷ 18 ∷ 0 ∷ 1 ∷ []); port = pos 40000; zone = [] }

abbrev assoc : Association
assoc = record { client_addr = own; conn = 7 }

abbrev table : Table
table = (addr_key shifted_ip own, assoc) ∷ []

table-IsTable : IsTable shifted_ip table
unfolding lookup
table-IsTable = record { differ = (refl, tt); keyed = (refl, tt) }

association_for_source-FindsIn_example :
    FindsIn shifted_ip source table table-IsTable.differ
      (association_for_source shifted_ip source table)
association_for_source-FindsIn_example =
    association_for_source-FindsIn shifted_ip source table table-IsTable.differ

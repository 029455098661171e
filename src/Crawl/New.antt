-- ===== src/Crawl/New.antt =====
-- A crawl adds no device that the inventory has.
use netbuddy.Base.{Text, ◌≡◌, true, false, List, Option, some, All, list_eq, nat_eq, contains}
use netbuddy.Inventory.{Device}
use netbuddy.Discovery.Rows.{LldpNeighbor}
use netbuddy.Crawl.Loop.{CrawlState, CrawlAdded}

-- An address that is not among the old ones.
abbrev pub IsNewTo : List Text → Text → Type 0
IsNewTo old ip = contains ip old ≡ false

abbrev HasNewAddress : List Text → LldpNeighbor → Type 0
HasNewAddress old n = (ip : Text) → n.remote_mgmt_address ≡ some ip → IsNewTo old ip

-- The old addresses are known, and those of the added devices are none of them.
record IsFresh (old : List Text) (s : CrawlState) : Type 0 where
  known : (ip : Text) → contains ip old ≡ true → contains ip s.known_ips ≡ true
  added : All (λ a. IsNewTo old a.mgmt_ip) s.report.added

abbrev added_of : Device → CrawlAdded
added_of d = record { hostname = d.hostname; mgmt_ip = d.mgmt_ip; adapter_id = d.adapter_id }

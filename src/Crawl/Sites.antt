-- ===== src/Crawl/Sites.antt =====
-- The site of an address (backend/src/netbuddy/services/sites_net.py). Python's `ipaddress` is a
-- parameter: what it reads as an address and as a network, and which addresses a network contains.
use netbuddy.Base.{
  ℕ, Text, Bool, true, false, ◌&&◌, List, [], ◌∷◌, Option, none, some, ltb, if◌then◌else◌,
}

pub record IpLibrary (Address Network : Type 0) : Type 0 where
  pub ip_address : Text → Option Address
  pub ip_network : Text → Option Network
  pub prefixlen : Network → ℕ
  pub contains_address : Network → Address → Bool
  pub overlaps : Network → Network → Bool

-- A row of the sites' segments.
pub record SiteSubnet : Type 0 where
  pub cidr : Text
  pub site_id : ℕ

-- `best is None or net.prefixlen > best[0]`
abbrev pub is_better : ℕ → Option (ℕ × ℕ) → Bool
is_better len none = true
is_better len (some (best, site)) = ltb best len

abbrev pub site_of : Option (ℕ × ℕ) → Option ℕ
site_of none = none
site_of (some (len, site)) = some site

module _ {Address Network : Type 0} (lib : IpLibrary Address Network) where
  -- One turn of the loop. A segment that does not parse is passed over.
  abbrev pub consider : Address → SiteSubnet → Option Network → Option (ℕ × ℕ) → Option (ℕ × ℕ)
  consider addr row none best = best
  consider addr row (some net) best =
      if lib.contains_address net addr && is_better (lib.prefixlen net) best
      then some (lib.prefixlen net, row.site_id)
      else best

  unfoldable pub best_subnet : Address → Option (ℕ × ℕ) → List SiteSubnet → Option (ℕ × ℕ)
  best_subnet addr best [] = best
  best_subnet addr best (row ∷ rows) =
      best_subnet addr (consider addr row (lib.ip_network row.cidr) best) rows

  abbrev pub site_at : List SiteSubnet → Option Address → Option ℕ
  site_at rows none = none
  site_at rows (some addr) = site_of (best_subnet addr none rows)

  unfoldable pub site_for_ip : List SiteSubnet → Text → Option ℕ
  unfolding best_subnet
  site_for_ip rows ip = site_at rows (lib.ip_address ip)

  -- The networks among texts, without those that do not parse.
  abbrev pub cons_network : Option Network → List Network → List Network
  cons_network none nets = nets
  cons_network (some net) nets = net ∷ nets

  unfoldable pub networks : List Text → List Network
  networks [] = []
  networks (c ∷ cidrs) = cons_network (lib.ip_network c) (networks cidrs)

  abbrev pub overlaps_any : Network → List Network → Bool
  overlaps_any candidate [] = false
  overlaps_any candidate (net ∷ nets) =
      if lib.overlaps candidate net then true else overlaps_any candidate nets

  abbrev pub any_overlap : List Network → List Network → Bool
  any_overlap [] nets = false
  any_overlap (candidate ∷ more) nets =
      if overlaps_any candidate nets then true else any_overlap more nets

  unfoldable pub subnet_overlaps_site : List Text → List Text → Bool
  unfolding networks
  subnet_overlaps_site cidrs site_cidrs = any_overlap (networks cidrs) (networks site_cidrs)

-- ===== src/Crawl/Longest.antt =====
-- The site of an address is that of its longest segment.
use netbuddy.Base.{
  ℕ, Text, ◌≤◌, ◌≡◌, refl, true, false, List, [], ◌∷◌, arith, Option, none, some, All, Bool-cases,
  ◌⊎◌, inl, inr, if◌then◌else◌,
}
use netbuddy.Crawl.Sites.{
  IpLibrary, SiteSubnet, is_better, consider, best_subnet, site_of, site_for_ip,
}

module _ {Address Network : Type 0} (lib : IpLibrary Address Network) (addr : Address) where
  abbrev match_of : SiteSubnet → Option Network → List (ℕ × ℕ) → List (ℕ × ℕ)
  match_of row none rest = rest
  match_of row (some net) rest =
      if lib.contains_address net addr then (lib.prefixlen net, row.site_id) ∷ rest else rest

  -- The segments that contain the address, by their prefix length and their site.
  abbrev pub matches : List SiteSubnet → List (ℕ × ℕ)
  matches [] = []
  matches (row ∷ rows) = match_of row (lib.ip_network row.cidr) (matches rows)

abbrev pub IsIn : ℕ × ℕ → List (ℕ × ℕ) → Type 0
IsIn m [] = ⊥
IsIn m (n ∷ rest) = (m ≡ n) ⊎ IsIn m rest

-- What the loop has found, starting from `best`, after some matches.
abbrev IsBest : Option (ℕ × ℕ) → List (ℕ × ℕ) → Option (ℕ × ℕ) → Type 0
IsBest none found none = found ≡ []
IsBest (some b) found none = ⊥
IsBest none found (some m) = IsIn m found × All (λ n. n.0 ≤ m.0) found
IsBest (some b) found (some m) = ((m ≡ b) ⊎ IsIn m found) × (b.0 ≤ m.0) × All (λ n. n.0 ≤ m.0) found

-- One more match in front, which the loop takes or passes over.
take-IsBest :
    (best : Option (ℕ × ℕ)) (b : ℕ × ℕ) (found : List (ℕ × ℕ)) (result : Option (ℕ × ℕ))
    → is_better b.0 best ≡ true
    → IsBest (some b) found result
    → IsBest best (b ∷ found) result
take-IsBest none b found (some m) h (inl same, longer, all) = (inl same, (longer, all))
take-IsBest none b found (some m) h (inr later, longer, all) = (inr later, (longer, all))
take-IsBest (some (len, site)) b found (some m) h (inl same, longer, all) =
    (inr (inl same), ground arith, (longer, all))
take-IsBest (some (len, site)) b found (some m) h (inr later, longer, all) =
    (inr (inr later), ground arith, (longer, all))
take-IsBest none b found none h absurdity = absurd absurdity
take-IsBest (some c) b found none h absurdity = absurd absurdity

pass-IsBest :
    (b c : ℕ × ℕ) (found : List (ℕ × ℕ)) (result : Option (ℕ × ℕ))
    → b.0 ≤ c.0
    → IsBest (some c) found result
    → IsBest (some c) (b ∷ found) result
pass-IsBest b c found (some m) h (inl same, longer, all) = (inl same, longer, (omega arith, all))
pass-IsBest b c found (some m) h (inr later, longer, all) =
    (inr (inr later), longer, (omega arith, all))
pass-IsBest b c found none h absurdity = absurd absurdity

passed-IsBest :
    (b : ℕ × ℕ) (best : Option (ℕ × ℕ)) (found : List (ℕ × ℕ)) (result : Option (ℕ × ℕ))
    → is_better b.0 best ≡ false
    → IsBest best found result
    → IsBest best (b ∷ found) result
passed-IsBest b none found result h k = absurd (ground arith)
passed-IsBest b (some c) found result h k = pass-IsBest b c found result (ground arith) k

found_site :
    (best : Option (ℕ × ℕ)) (found : List (ℕ × ℕ))
    → IsBest none found best
    → ((site_of best ≡ none) × (found ≡ []))
      ⊎ ((len site : ℕ) × (site_of best ≡ some site)
          × IsIn (len, site) found
          × All (λ m. m.0 ≤ len) found)
found_site none found h = inl (refl, h)
found_site (some m) found (here, longest) = inr (m.0, m.1, refl, here, longest)

module _ {Address Network : Type 0} (lib : IpLibrary Address Network) (addr : Address) where
  done-IsBest : (best : Option (ℕ × ℕ)) → IsBest best [] best
  done-IsBest none = refl
  done-IsBest (some b) = (inl refl, omega arith, tt)

  consider-IsBest :
      (row : SiteSubnet) (net : Option Network) (best : Option (ℕ × ℕ)) (found : List (ℕ × ℕ))
      (result : Option (ℕ × ℕ))
      → IsBest (consider lib addr row net best) found result
      → IsBest best (match_of lib addr row net found) result
  consider-IsBest row none best found result h = h
  consider-IsBest row (some net) best found result h =
      elim (Bool-cases (lib.contains_address net addr)) [
        | inl inside ↦ elim (Bool-cases (is_better (lib.prefixlen net) best)) [
          | inl better ↦ rw inside (
              take-IsBest best (lib.prefixlen net, row.site_id) found result better
                (rw (inside, better) at h))
          | inr worse ↦ rw inside (
              passed-IsBest (lib.prefixlen net, row.site_id) best found result worse
                (rw (inside, worse) at h))
        ]
        | inr outside ↦ rw outside (rw outside at h)
      ]

  best_subnet-IsBest :
      (best : Option (ℕ × ℕ)) (rows : List SiteSubnet)
      → IsBest best (matches lib addr rows) (best_subnet lib addr best rows)
  unfolding best_subnet
  best_subnet-IsBest best [] = done-IsBest best
  best_subnet-IsBest best (row ∷ rows) =
      consider-IsBest row (lib.ip_network row.cidr) best (matches lib addr rows) _
        (best_subnet-IsBest (consider lib addr row (lib.ip_network row.cidr) best) rows)

-- The site of a readable address is that of a segment that contains it, of which none that does is
-- longer; and there is none exactly when no readable segment contains it.
pub site_for_ip-longest :
    {Address Network : Type 0} (lib : IpLibrary Address Network) (rows : List SiteSubnet)
    (ip : Text) (addr : Address)
    → lib.ip_address ip ≡ some addr
    → ((site_for_ip lib rows ip ≡ none) × (matches lib addr rows ≡ []))
      ⊎ ((len site : ℕ) × (site_for_ip lib rows ip ≡ some site)
          × IsIn (len, site) (matches lib addr rows)
          × All (λ m. m.0 ≤ len) (matches lib addr rows))
unfolding site_for_ip
site_for_ip-longest lib rows ip addr reads = rw reads (
    found_site (best_subnet lib addr none rows) (matches lib addr rows)
      (best_subnet-IsBest lib addr none rows))

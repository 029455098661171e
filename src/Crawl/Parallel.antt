-- ===== src/Crawl/Parallel.antt =====
-- Two links to one neighbour that is not in the inventory yet.
use netbuddy.Base.{
  ℕ, Text, ◌≡◌, refl, true, false, List, [], ◌∷◌, ◌++◌, arith, some, ok, raised, ==_refl, list_eq,
  nat_eq, contains, Bool-cases, inl, inr,
}
use netbuddy.Inventory.{Device}
use netbuddy.Discovery.Rows.{LldpNeighbor}
use netbuddy.Crawl.Guess.{guess_adapter}
use netbuddy.Crawl.Loop.{
  CrawlCall, CrawlState, integrity_error, is_taken, name_or, new_device, add_device, insert_device,
  add_neighbor, add_all,
}

is_taken-last :
    (devices : List Device) (d : Device)
    → d.deleted ≡ false
    → is_taken d.hostname (devices ++ d ∷ []) ≡ true
is_taken-last [] d kept = rw (kept, ==_refl d.hostname) refl
is_taken-last (e ∷ devices) d kept = ground (arith, is_taken-last devices d kept)

module _ (call : CrawlCall) where
  add_device-devices :
      (d : Device) (depth : ℕ) (s : CrawlState)
      → (add_device call d depth s).devices ≡ s.devices ++ d ∷ []
  add_device-devices d depth s = elim (Bool-cases (contains d.id s.seen_devices)) [
    | inl seen ↦ rw seen refl
    | inr new ↦ rw new refl
  ]

  insert_device-new :
      (d : Device) (depth : ℕ) (s : CrawlState)
      → is_taken d.hostname s.devices ≡ false
      → insert_device call d depth s ≡ (ok tt, add_device call d depth s)
  insert_device-new d depth s free = rw free refl

  insert_device-taken :
      (d : Device) (depth : ℕ) (s : CrawlState)
      → is_taken d.hostname s.devices ≡ true
      → insert_device call d depth s ≡ (raised integrity_error, s)
  insert_device-taken d depth s taken = rw taken refl

-- A device that reports two neighbours with one name and one address, as over two parallel links,
-- both of a known kind: if no active device has the name, the crawl adds the first and raises an
-- `IntegrityError` at the second, whatever neighbours follow.
pub add_all-parallel :
    (call : CrawlCall) (device : Device) (depth : ℕ) (n m : LldpNeighbor) (rest : List LldpNeighbor)
    (mgmt a b : Text) (s : CrawlState)
    → n.remote_mgmt_address ≡ some mgmt
    → m.remote_mgmt_address ≡ some mgmt
    → m.remote_system_name ≡ n.remote_system_name
    → guess_adapter call.vendors n.remote_system_description call.default_adapter_id
        n.remote_chassis_id
      ≡ some a
    → guess_adapter call.vendors m.remote_system_description call.default_adapter_id
        m.remote_chassis_id
      ≡ some b
    → is_taken (name_or mgmt n.remote_system_name) s.devices ≡ false
    → (let first = new_device call s.next_device device n mgmt a in
        add_all call device depth (n ∷ m ∷ rest) s
        ≡ (raised integrity_error, add_device call first depth s))
unfolding add_all add_neighbor
add_all-parallel call device depth n m rest mgmt a b s n_at m_at same n_guess m_guess free =
    let first = new_device call s.next_device device n mgmt a in
    let t = add_device call first depth s in
    let second = new_device call t.next_device device m mgmt b in
    let taken : is_taken second.hostname t.devices ≡ true =
      rw (same, add_device-devices call first depth s) (is_taken-last s.devices first refl) in
    rw
      (
        n_at,
        n_guess,
        insert_device-new call first depth s free,
        m_at,
        m_guess,
        insert_device-taken call second depth t taken,
      )
      refl

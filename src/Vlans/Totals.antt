-- ===== src/Vlans/Totals.antt =====
-- The ports and the carriers of each VLAN, counted device by device.
use netbuddy.Base.{
  ℕ, ◌+◌, Text, Bool, true, false, ◌&&◌, ◌||◌, any, contains, List, [], ◌∷◌, ◌++◌, Option, none,
  some, is_some, nat_eq, list_eq, ◌==◌, list_beq_iff, Bool-cases, Option-cases, inl, inr, ◌⊎◌,
  if◌then◌else◌, ◌≡◌, refl, sym, ap, ◌∙◌, arith,
}
use netbuddy.Base.Dict.{lookup}
use netbuddy.Vlans.Rows.{SviInfo, DeviceVlanInfo}
use netbuddy.Vlans.Config.{or_zero}
use netbuddy.Vlans.Survey.{VlanEntry, route, serve, site_of, add_once, add_gateway, add_helpers}
use netbuddy.Vlans.Sums.{map_entry, carried, routed, served, device_entry, site_entry}

abbrev defines : DeviceVlanInfo → ℕ → Bool
defines dev j = is_some (lookup j dev.vlans)

abbrev is_at : Text → DeviceVlanInfo → Bool
is_at site dev = site_of dev.site == site

-- The access ports that the devices of a site have in a VLAN that they define.
abbrev pub ports_of : Text → ℕ → List DeviceVlanInfo → ℕ
ports_of site j [] = 0
ports_of site j (dev ∷ devs) =
    (if is_at site dev && defines dev j then or_zero (lookup j dev.access_ports) else 0)
    + ports_of site j devs

-- Whether a device with this name is at the site and defines the VLAN.
abbrev pub is_carrier : Text → ℕ → List DeviceVlanInfo → Text → Bool
is_carrier site j devs h = any (λ dev. (is_at site dev && defines dev j) && dev.hostname == h) devs

-- An entry with so many ports, and these carriers; none, if there are none.
abbrev pub Totals : ℕ → ℕ → (Text → Bool) → Option VlanEntry → Type 0
Totals j n c none = (n ≡ 0) × ((h : Text) → c h ≡ false)
Totals j n c (some e) =
    (e.vlan_id ≡ j) × (e.access_ports ≡ n) × ((h : Text) → contains h e.carriers ≡ c h)

contains-add_once :
    (x h : Text) (xs : List Text) → contains h (add_once x xs) ≡ (contains h xs || x == h)
contains-add_once x h xs = elim (Bool-cases (contains x xs)) [
  | inl known ↦ rw known (ground (arith, known_too))
  | inr new ↦ rw new (snoc xs)
]
  where
    snoc : (xs : List Text) → contains h (xs ++ x ∷ []) ≡ (contains h xs || x == h)
    snoc [] = ground arith
    snoc (y ∷ ys) = ground (arith, snoc ys)

    known_too : x == h ≡ true → contains x xs ≡ contains h xs
    known_too k = ap (λ y. contains y xs) ((list_beq_iff x h).0 k)

Totals-same :
    (j n m : ℕ) (c d : Text → Bool) (o : Option VlanEntry)
    → n ≡ m
    → ((h : Text) → c h ≡ d h)
    → Totals j n c o
    → Totals j m d o
Totals-same j n m c d none e f (zero_n, none_c) = (sym e ∙ zero_n, λ h. sym (f h) ∙ none_c h)
Totals-same j n m c d (some x) e f (id, ports, carriers) = (id, ports ∙ e, λ h. carriers h ∙ f h)

carried-Totals :
    (dev : DeviceVlanInfo) (j n : ℕ) (c : Text → Bool) (name : Option Text) (o : Option VlanEntry)
    → Totals j n c o
    → Totals j
        (n + or_zero (lookup j dev.access_ports))
        (λ h. c h || dev.hostname == h)
        (carried dev j (some name) o)
carried-Totals dev j n c name none (zero_n, none_c) =
    (refl, omega (arith, zero_n), λ h. rw (none_c h) (contains-add_once dev.hostname h []))
carried-Totals dev j n c name (some e) (id, ports, carriers) = (
  id,
  omega (arith, ports),
  λ h. contains-add_once dev.hostname h e.carriers ∙ ap (λ b. b || dev.hostname == h) (carriers h),
)

-- A change of what the totals do not see.
IsOther : (VlanEntry → VlanEntry) → Type 0
IsOther f =
    (e : VlanEntry)
    → ((f e).vlan_id ≡ e.vlan_id)
      × ((f e).access_ports ≡ e.access_ports)
      × ((f e).carriers ≡ e.carriers)

map_entry-Totals :
    (f : VlanEntry → VlanEntry) (j n : ℕ) (c : Text → Bool) (o : Option VlanEntry) (b : Bool)
    → IsOther f
    → Totals j n c o
    → Totals j n c (if b then map_entry f o else o)
unfolding IsOther
map_entry-Totals f j n c o false other t = t
map_entry-Totals f j n c none true other t = t
map_entry-Totals f j n c (some e) true other (id, ports, carriers) =
    let (i, p, cs) = other e in (i ∙ id, p ∙ ports, λ h. ap (contains h) cs ∙ carriers h)

route-IsOther : (dev : DeviceVlanInfo) (svi : SviInfo) → IsOther (route dev svi)
unfolding IsOther
route-IsOther dev svi e = gateway svi.ip svi.helpers
  where
    gateway :
        (ip : Option Text) (helpers : List Text)
        → let e' = add_helpers dev helpers (add_gateway dev ip e) in
          (e'.vlan_id ≡ e.vlan_id) × (e'.access_ports ≡ e.access_ports) × (e'.carriers ≡ e.carriers)
    gateway none [] = (refl, refl, refl)
    gateway none (h ∷ hs) = (refl, refl, refl)
    gateway (some []) [] = (refl, refl, refl)
    gateway (some []) (h ∷ hs) = (refl, refl, refl)
    gateway (some (c ∷ s)) [] = (refl, refl, refl)
    gateway (some (c ∷ s)) (h ∷ hs) = (refl, refl, refl)

serve-IsOther : (dev : DeviceVlanInfo) → IsOther (serve dev)
unfolding IsOther
serve-IsOther dev e = (refl, refl, refl)

routed-Totals :
    (dev : DeviceVlanInfo) (j n : ℕ) (c : Text → Bool) (svis : List SviInfo) (o : Option VlanEntry)
    → Totals j n c o
    → Totals j n c (routed dev j svis o)
routed-Totals dev j n c [] o t = t
routed-Totals dev j n c (svi ∷ svis) o t =
    routed-Totals dev j n c svis _
      (map_entry-Totals (route dev svi) j n c o (svi.vlan_id == j) (route-IsOther dev svi) t)

served-Totals :
    (dev : DeviceVlanInfo) (j n : ℕ) (c : Text → Bool) (ids : List ℕ) (o : Option VlanEntry)
    → Totals j n c o
    → Totals j n c (served dev j ids o)
served-Totals dev j n c [] o t = t
served-Totals dev j n c (v ∷ ids) o t =
    served-Totals dev j n c ids _
      (map_entry-Totals (serve dev) j n c o (v == j) (serve-IsOther dev) t)

device-Totals :
    (dev : DeviceVlanInfo) (j n : ℕ) (c : Text → Bool) (o : Option VlanEntry)
    → Totals j n c o
    → Totals j
        (n + (if defines dev j then or_zero (lookup j dev.access_ports) else 0))
        (λ h. c h || (defines dev j && dev.hostname == h))
        (device_entry dev j o)
device-Totals dev j n c o t =
    served-Totals dev j _ _ dev.dhcp_server_vlans _
      (routed-Totals dev j _ _ dev.svis _ (step (Option-cases (lookup j dev.vlans))))
  where
    step :
        (lookup j dev.vlans ≡ none) ⊎ ((name : Option Text) × (lookup j dev.vlans ≡ some name))
        → Totals j
            (n + (if defines dev j then or_zero (lookup j dev.access_ports) else 0))
            (λ h. c h || (defines dev j && dev.hostname == h))
            (carried dev j (lookup j dev.vlans) o)
    step (inl missing) = rw missing (Totals-same j n _ c _ o (omega arith) (λ h. ground arith) t)
    step (inr (name, found)) = rw found (carried-Totals dev j n c name o t)

pub site_entry-Totals :
    (site : Text) (j : ℕ) (devs : List DeviceVlanInfo) (n : ℕ) (c : Text → Bool)
    (o : Option VlanEntry)
    → Totals j n c o
    → Totals j
        (n + ports_of site j devs)
        (λ h. c h || is_carrier site j devs h)
        (site_entry site j devs o)
site_entry-Totals site j [] n c o t = Totals-same j n _ c _ o (omega arith) (λ h. ground arith) t
site_entry-Totals site j (dev ∷ devs) n c o t = elim (Bool-cases (is_at site dev)) [
  | inr away ↦ rw away (
      Totals-same j _ _ _ _ _ (omega arith) (λ h. ground arith)
        (site_entry-Totals site j devs n c o t))
  | inl here ↦ rw here (
      Totals-same j _ _ _ _ _ (omega arith) (λ h. ground arith)
        (site_entry-Totals site j devs _ _ _ (device-Totals dev j n c o t)))
]

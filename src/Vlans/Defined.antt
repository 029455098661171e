-- ===== src/Vlans/Defined.antt =====
-- Writes to what is known of a device that keep each VLAN defined once and counted once.
use netbuddy.Base.{
  ℕ, Text, true, false, contains, List, [], ◌∷◌, ◌++◌, Option, none, some, is_some, nat_eq, list_eq,
  ◌==◌, ==_refl, nat_beq_iff, Bool-cases, inl, inr, All, All-append, ◌≡◌, refl, arith,
}
use netbuddy.Base.Dict.{
  lookup, insert, setdefault, lookup-insert, lookup-setdefault, HasDistinctKeys,
  insert-HasDistinctKeys, setdefault-HasDistinctKeys, insert-All,
}
use netbuddy.Vlans.Range.{is_vlan_id}
use netbuddy.Vlans.Rows.{DeviceVlanInfo}
use netbuddy.Vlans.Config.{
  define_vlan, define_vlans, add_access_ports, add_trunk_vlan, add_trunk_vlans, set_name, is_named,
}

abbrev pub IsDefined : DeviceVlanInfo → ℕ → Type 0
IsDefined info v = is_some (lookup v info.vlans) ≡ true

abbrev pub IsDistinct : List ℕ → Type 0
IsDistinct [] = Unit
IsDistinct (v ∷ ids) = (contains v ids ≡ false) × IsDistinct ids

-- Every VLAN is defined once and counted once; what ports use is defined, and what trunks carry is
-- also a VLAN's number.
pub record IsConsistent (info : DeviceVlanInfo) : Type 0 where
  pub vlans_once : HasDistinctKeys info.vlans
  pub ports_once : HasDistinctKeys info.access_ports
  pub trunks_once : IsDistinct info.trunk_vlans
  pub ports_defined : All (λ p. is_some (lookup p.0 info.vlans) ≡ true) info.access_ports
  pub trunks_defined :
      All (λ v. (is_vlan_id v ≡ true) × (is_some (lookup v info.vlans) ≡ true)) info.trunk_vlans

pub map-All :
    {A : Type 0} (P Q : A → Type 0) → ((a : A) → P a → Q a) → (xs : List A) → All P xs → All Q xs
map-All P Q f [] h = tt
map-All P Q f (x ∷ xs) (p, h) = (f x p, map-All P Q f xs h)

abbrev no_name : Option Text
no_name = none

pub lookup-define : (v : ℕ) (info : DeviceVlanInfo) → IsDefined (define_vlan v info) v
lookup-define v info = ground (arith, lookup-setdefault v v no_name info.vlans, ==_refl v)

pub define-kept :
    (v w : ℕ) (info : DeviceVlanInfo) → IsDefined info w → IsDefined (define_vlan v info) w
define-kept v w info h = ground (arith, lookup-setdefault v w no_name info.vlans, h)

pub insert-kept :
    (v w : ℕ) (name : Option Text) (vlans : List (ℕ × Option Text))
    → is_some (lookup w vlans) ≡ true
    → is_some (lookup w (insert v name vlans)) ≡ true
insert-kept v w name vlans h = ground (arith, lookup-insert v w name vlans, h)

-- Writing to the VLANs so that none gets lost.
pub vlans-IsConsistent :
    (info : DeviceVlanInfo) (vlans : List (ℕ × Option Text))
    → HasDistinctKeys vlans
    → ((w : ℕ) → IsDefined info w → is_some (lookup w vlans) ≡ true)
    → IsConsistent info
    → IsConsistent (record info { vlans = vlans })
vlans-IsConsistent info vlans once kept c = record {
  vlans_once = once;
  ports_once = c.ports_once;
  trunks_once = c.trunks_once;
  ports_defined = map-All _ _ (λ p. kept p.0) info.access_ports c.ports_defined;
  trunks_defined = map-All _ _ (λ v h. (h.0, kept v h.1)) info.trunk_vlans c.trunks_defined;
}

pub define-IsConsistent :
    (v : ℕ) (info : DeviceVlanInfo) → IsConsistent info → IsConsistent (define_vlan v info)
define-IsConsistent v info c =
    vlans-IsConsistent info (setdefault v none info.vlans)
      (setdefault-HasDistinctKeys v none info.vlans c.vlans_once) (λ w. define-kept v w info) c

pub define_vlans-IsConsistent :
    (ids : List ℕ) (info : DeviceVlanInfo)
    → IsConsistent info
    → IsConsistent (define_vlans ids info)
define_vlans-IsConsistent [] info c = c
define_vlans-IsConsistent (v ∷ ids) info c =
    define_vlans-IsConsistent ids (define_vlan v info) (define-IsConsistent v info c)

pub define_vlans-kept :
    (ids : List ℕ) (w : ℕ) (info : DeviceVlanInfo)
    → IsDefined info w
    → IsDefined (define_vlans ids info) w
define_vlans-kept [] w info h = h
define_vlans-kept (v ∷ ids) w info h =
    define_vlans-kept ids w (define_vlan v info) (define-kept v w info h)

pub set_name-kept :
    (ids : List ℕ) (name : Text) (info : DeviceVlanInfo) (w : ℕ)
    → IsDefined info w
    → IsDefined (set_name ids name info) w
set_name-kept [] name info w h = h
set_name-kept (v ∷ u ∷ ids) name info w h = h
set_name-kept (v ∷ []) name info w h = elim (Bool-cases (is_named (lookup v info.vlans))) [
  | inl named ↦ rw named h
  | inr unnamed ↦ rw unnamed (insert-kept v w (some name) info.vlans h)
]

pub set_name-IsConsistent :
    (ids : List ℕ) (name : Text) (info : DeviceVlanInfo)
    → IsConsistent info
    → IsConsistent (set_name ids name info)
set_name-IsConsistent [] name info c = c
set_name-IsConsistent (v ∷ u ∷ ids) name info c = c
set_name-IsConsistent (v ∷ []) name info c = elim (Bool-cases (is_named (lookup v info.vlans))) [
  | inl named ↦ rw named c
  | inr unnamed ↦ rw unnamed (
      vlans-IsConsistent info (insert v (some name) info.vlans)
        (insert-HasDistinctKeys v (some name) info.vlans c.vlans_once)
        (λ w. insert-kept v w (some name) info.vlans) c)
]

pub add_access_ports-IsConsistent :
    (v n : ℕ) (info : DeviceVlanInfo)
    → IsDefined info v
    → IsConsistent info
    → IsConsistent (add_access_ports v n info)
add_access_ports-IsConsistent v n info h c = record {
  vlans_once = c.vlans_once;
  ports_once = insert-HasDistinctKeys v _ info.access_ports c.ports_once;
  trunks_once = c.trunks_once;
  ports_defined =
      insert-All (λ w. is_some (lookup w info.vlans) ≡ true) v _ info.access_ports h
        c.ports_defined;
  trunks_defined = c.trunks_defined;
}

pub contains-append :
    (v w : ℕ) (ids : List ℕ)
    → contains v ids ≡ false
    → (w == v) ≡ false
    → contains v (ids ++ w ∷ []) ≡ false
contains-append v w [] h k = rw k refl
contains-append v w (u ∷ ids) h k = ground (arith, h, k, contains-append v w ids)

pub append-IsDistinct :
    (v : ℕ) (ids : List ℕ) → contains v ids ≡ false → IsDistinct ids → IsDistinct (ids ++ v ∷ [])
append-IsDistinct v [] h d = (refl, tt)
append-IsDistinct v (u ∷ ids) h (fresh, d) = (
  contains-append u v ids fresh (ground (arith, h, nat_beq_iff u v, nat_beq_iff v u)),
  append-IsDistinct v ids (ground (arith, h)) d,
)

pub add_trunk_vlan-IsConsistent :
    (v : ℕ) (info : DeviceVlanInfo)
    → is_vlan_id v ≡ true
    → IsDefined info v
    → IsConsistent info
    → IsConsistent (add_trunk_vlan v info)
add_trunk_vlan-IsConsistent v info valid h c = elim (Bool-cases (contains v info.trunk_vlans)) [
  | inl known ↦ rw known c
  | inr fresh ↦ rw fresh (record {
    vlans_once = c.vlans_once;
    ports_once = c.ports_once;
    trunks_once = append-IsDistinct v info.trunk_vlans fresh c.trunks_once;
    ports_defined = c.ports_defined;
    trunks_defined =
        All-append (λ w. (is_vlan_id w ≡ true) × (is_some (lookup w info.vlans) ≡ true))
          info.trunk_vlans (v ∷ []) c.trunks_defined ((valid, h), tt);
  })
]

-- The order of the two writes does not matter.
pub define-add_trunk :
    (v : ℕ) (info : DeviceVlanInfo)
    → define_vlan v (add_trunk_vlan v info) ≡ add_trunk_vlan v (define_vlan v info)
define-add_trunk v info = elim (Bool-cases (contains v info.trunk_vlans)) [
  | inl known ↦ rw known refl
  | inr fresh ↦ rw fresh refl
]

pub add_trunk-kept :
    (v w : ℕ) (info : DeviceVlanInfo) → IsDefined info w → IsDefined (add_trunk_vlan v info) w
add_trunk-kept v w info h = elim (Bool-cases (contains v info.trunk_vlans)) [
  | inl known ↦ rw known h
  | inr fresh ↦ rw fresh h
]

pub add_trunk_vlans-IsConsistent :
    (ids : List ℕ) (info : DeviceVlanInfo)
    → All (λ v. is_vlan_id v ≡ true) ids
    → IsConsistent info
    → IsConsistent (add_trunk_vlans ids info)
add_trunk_vlans-IsConsistent [] info h c = c
add_trunk_vlans-IsConsistent (v ∷ ids) info (valid, h) c = add_trunk_vlans-IsConsistent ids _ h (
    rw (define-add_trunk v info) (
      add_trunk_vlan-IsConsistent v (define_vlan v info) valid (lookup-define v info)
        (define-IsConsistent v info c)))

pub add_trunk_vlans-kept :
    (ids : List ℕ) (w : ℕ) (info : DeviceVlanInfo)
    → IsDefined info w
    → IsDefined (add_trunk_vlans ids info) w
add_trunk_vlans-kept [] w info h = h
add_trunk_vlans-kept (v ∷ ids) w info h =
    add_trunk_vlans-kept ids w _
      (define-kept v w (add_trunk_vlan v info) (add_trunk-kept v w info h))

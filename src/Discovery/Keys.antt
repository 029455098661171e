-- ===== src/Discovery/Keys.antt =====
-- What identifies the rows of interfaces, and what the cache of a discovery knows of them.
use netbuddy.Base.{
  ℕ, Text, ◌≡◌, Bool, true, false, List, [], ◌∷◌, ◌++◌, map, arith, some, is_some, nat_eq, list_eq,
  list_beq_iff, nat_beq_iff, ==_refl, All, if◌then◌else◌, ◌⊎◌, inl, inr, Bool-cases,
}
use netbuddy.Base.Dict.{lookup, insert, lookup-insert}
use netbuddy.Ifname.{normalize_interface_name}
use netbuddy.Discovery.Rows.{Interface}
use netbuddy.Discovery.Tables.{is_active_at, cache_from, interface_cache}

-- The columns of an interface that no discovery changes.
pub record InterfaceKey : Type 0 where
  pub id : ℕ
  pub device_id : ℕ
  pub name : Text
  pub deleted : Bool

abbrev pub key_of : Interface → InterfaceKey
key_of i = record { id = i.id; device_id = i.device_id; name = i.name; deleted = i.deleted }

abbrev pub keys_of : List Interface → List InterfaceKey
keys_of rows = map key_of rows

abbrev pub IsActive : ℕ → InterfaceKey → Type 0
IsActive device_id k = (k.device_id ≡ device_id) × (k.deleted ≡ false)

-- Some active row of the device has this identifier, and a name with this normal form.
abbrev pub HasRow : ℕ → Text → ℕ → List InterfaceKey → Type 0
HasRow device_id key id [] = ⊥
HasRow device_id key id (k ∷ keys) =
    (IsActive device_id k × (k.id ≡ id) × (normalize_interface_name k.name ≡ key))
    ⊎ HasRow device_id key id keys

pub HasRow-append :
    (device_id : ℕ) (key : Text) (id : ℕ) (keys added : List InterfaceKey)
    → HasRow device_id key id keys
    → HasRow device_id key id (keys ++ added)
HasRow-append device_id key id [] added h = absurd h
HasRow-append device_id key id (k ∷ keys) added (inl here) = inl here
HasRow-append device_id key id (k ∷ keys) added (inr there) =
    inr (HasRow-append device_id key id keys added there)

pub HasRow-last :
    (device_id : ℕ) (key : Text) (id : ℕ) (keys : List InterfaceKey) (k : InterfaceKey)
    → IsActive device_id k × (k.id ≡ id) × (normalize_interface_name k.name ≡ key)
    → HasRow device_id key id (keys ++ k ∷ [])
HasRow-last device_id key id [] k h = inl h
HasRow-last device_id key id (j ∷ keys) k h = inr (HasRow-last device_id key id keys k h)

-- Every active row of the device can be found in the cache, under the normal form of its name.
abbrev pub IsCovered : ℕ → List (Text × ℕ) → List InterfaceKey → Type 0
IsCovered device_id cache keys =
    All
      (λ k. IsActive device_id k → is_some (lookup (normalize_interface_name k.name) cache) ≡ true)
      keys

-- The cache is true of the table.
pub record IsReady (device_id : ℕ) (cache : List (Text × ℕ)) (keys : List InterfaceKey)
    : Type 0 where
  pub covered : IsCovered device_id cache keys
  pub found : (key : Text) (id : ℕ) → lookup key cache ≡ some id → HasRow device_id key id keys

-- An insertion hides no entry.
pub insert-is_some :
    (key j : Text) (id : ℕ) (cache : List (Text × ℕ))
    → is_some (lookup j cache) ≡ true
    → is_some (lookup j (insert key id cache)) ≡ true
insert-is_some key j id cache h = ground (arith, list_beq_iff key j, lookup-insert key j id cache)

-- What an insertion makes findable.
pub insert-entry :
    (k key : Text) (v id : ℕ) (cache : List (Text × ℕ))
    → lookup key (insert k v cache) ≡ some id
    → ((v ≡ id) × (k ≡ key)) ⊎ (lookup key cache ≡ some id)
insert-entry k key v id cache h = ground (arith, list_beq_iff k key, lookup-insert k key v cache)

cache_from-is_some :
    (cache : List (Text × ℕ)) (device_id : ℕ) (rows : List Interface) (j : Text)
    → is_some (lookup j cache) ≡ true
    → is_some (lookup j (cache_from cache device_id rows)) ≡ true
unfolding cache_from
cache_from-is_some cache device_id [] j h = h
cache_from-is_some cache device_id (i ∷ rows) j h = elim (Bool-cases (is_active_at device_id i)) [
  | inl active ↦ rw active (
      cache_from-is_some (insert (normalize_interface_name i.name) i.id cache) device_id rows j
        (insert-is_some (normalize_interface_name i.name) j i.id cache h))
  | inr other ↦ rw other (cache_from-is_some cache device_id rows j h)
]

IsActive-is_active_at :
    (device_id : ℕ) (i : Interface)
    → IsActive device_id (key_of i)
    → is_active_at device_id i ≡ true
IsActive-is_active_at device_id i (same, kept) = ground (arith, nat_beq_iff i.device_id device_id)

is_active_at-IsActive :
    (device_id : ℕ) (i : Interface)
    → is_active_at device_id i ≡ true
    → IsActive device_id (key_of i)
is_active_at-IsActive device_id i h = ground (arith, nat_beq_iff i.device_id device_id)

cache_from-IsCovered :
    (cache : List (Text × ℕ)) (device_id : ℕ) (rows : List Interface)
    → IsCovered device_id (cache_from cache device_id rows) (keys_of rows)
unfolding cache_from
cache_from-IsCovered cache device_id [] = tt
cache_from-IsCovered cache device_id (i ∷ rows) = (
  (λ active.
      let key = normalize_interface_name i.name in
      rw (IsActive-is_active_at device_id i active) (
        cache_from-is_some (insert key i.id cache) device_id rows key
          (ground (arith, ==_refl key, lookup-insert key key i.id cache)))),
  cache_from-IsCovered
      (if is_active_at device_id i
        then insert (normalize_interface_name i.name) i.id cache
        else cache)
      device_id rows,
)

cache_from-HasRow :
    (cache : List (Text × ℕ)) (device_id : ℕ) (rows : List Interface) (key : Text) (id : ℕ)
    → lookup key (cache_from cache device_id rows) ≡ some id
    → (lookup key cache ≡ some id) ⊎ HasRow device_id key id (keys_of rows)
unfolding cache_from
cache_from-HasRow cache device_id [] key id h = inl h
cache_from-HasRow cache device_id (i ∷ rows) key id h =
    elim (Bool-cases (is_active_at device_id i)) [
      | inl active ↦
          let k = normalize_interface_name i.name in
          elim (cache_from-HasRow (insert k i.id cache) device_id rows key id (rw active at h)) [
            | inl e ↦ elim (insert-entry k key i.id id cache e) [
              | inl (id_same, same) ↦
                  inr (inl (is_active_at-IsActive device_id i active, id_same, same))
              | inr old ↦ inl old
            ]
            | inr row ↦ inr (inr row)
          ]
      | inr other ↦ elim (cache_from-HasRow cache device_id rows key id (rw other at h)) [
        | inl e ↦ inl e
        | inr row ↦ inr (inr row)
      ]
    ]

pub interface_cache-IsReady :
    (device_id : ℕ) (rows : List Interface)
    → IsReady device_id (interface_cache device_id rows) (keys_of rows)
interface_cache-IsReady device_id rows = record {
  covered = cache_from-IsCovered [] device_id rows;
  found = λ key id h. elim (cache_from-HasRow [] device_id rows key id h) [
    | inl e ↦ absurd (cc)
    | inr row ↦ row
  ];
}

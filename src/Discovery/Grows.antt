-- ===== src/Discovery/Grows.antt =====
-- A discovery only ever adds interfaces, and never one that the table already has.
use mathlib.Core.List.{map-append}
use netbuddy.Base.{
  ℕ, Text, ◌≡◌, refl, sym, ◌∙◌, ap, subst, false, List, [], ◌∷◌, ◌++◌, arith, Option, none, some,
  is_some, nat_eq, list_eq, append_assoc, append-nil, ==_refl, All, All-append, inl, inr,
  Bool-cases, ◌==◌,
}
use netbuddy.Base.Dict.{lookup, insert, lookup-insert}
use netbuddy.Ifname.{normalize_interface_name}
use netbuddy.Discovery.Rows.{Interface, InterfaceData}
use netbuddy.Discovery.Keys.{
  InterfaceKey, key_of, keys_of, IsActive, HasRow-append, HasRow-last, IsCovered, IsReady,
  insert-is_some, insert-entry,
}
use netbuddy.Discovery.Tables.{
  Db, create_interface, fetched, get_or_create_interface, apply_interface, update_interface,
  store_interfaces,
}

-- Two rows that the unique index of interfaces forbids together.
abbrev pub Clashes : InterfaceKey → InterfaceKey → Type 0
Clashes k j =
    (k.deleted ≡ false) × (j.deleted ≡ false) × (j.device_id ≡ k.device_id) × (j.name ≡ k.name)

abbrev pub HasDistinctNames : List InterfaceKey → Type 0
HasDistinctNames [] = Unit
HasDistinctNames (k ∷ keys) = All (λ j. Clashes k j → ⊥) keys × HasDistinctNames keys

abbrev pub IsReadyDb : Db → Type 0
IsReadyDb s = IsReady s.device.id s.cache (keys_of s.interfaces)

pub record Grows (s s' : Db) : Type 0 where
  pub device : s'.device.id ≡ s.device.id
  pub added : List InterfaceKey
  pub rows : keys_of s'.interfaces ≡ keys_of s.interfaces ++ added
  pub each : All (IsActive s.device.id) added
  pub ready : IsReadyDb s → IsReadyDb s'
  pub distinct :
      IsReadyDb s
      → HasDistinctNames (keys_of s.interfaces)
      → HasDistinctNames (keys_of s'.interfaces)

-- A step that leaves the identity of all rows, the cache and the device alone.
pub Grows-same :
    (s s' : Db)
    → s'.device.id ≡ s.device.id
    → s'.cache ≡ s.cache
    → keys_of s'.interfaces ≡ keys_of s.interfaces
    → Grows s s'
Grows-same s s' device cache keys = record {
  device = device;
  added = [];
  rows = keys ∙ sym (append-nil (keys_of s.interfaces));
  each = tt;
  ready = λ h. rw (device, cache, keys) h;
  distinct = λ h d. rw keys d;
}

pub Grows-trans : {s t u : Db} → Grows s t → Grows t u → Grows s u
Grows-trans {s} {t} {u} a b = record {
  device = b.device ∙ a.device;
  added = a.added ++ b.added;
  rows =
      b.rows ∙ ap (λ l. l ++ b.added) a.rows ∙ append_assoc (keys_of s.interfaces) a.added b.added;
  each =
      All-append (IsActive s.device.id) a.added b.added a.each
        (subst (λ d. All (IsActive d) b.added) a.device b.each);
  ready = λ h. b.ready (a.ready h);
  distinct = λ h d. b.distinct (a.ready h) (a.distinct h d);
}

-- The key of a row that is created.
abbrev new_key : Text → Db → InterfaceKey
new_key name s = record { id = s.next_id; device_id = s.device.id; name = name; deleted = false }

snoc-IsCovered :
    (device_id : ℕ) (name : Text) (id : ℕ) (cache : List (Text × ℕ)) (keys : List InterfaceKey)
    → IsCovered device_id cache keys
    → IsCovered device_id
        (insert (normalize_interface_name name) id cache)
        (keys ++ record { id = id; device_id = device_id; name = name; deleted = false } ∷ [])
snoc-IsCovered device_id name id cache [] h = (
  (λ active.
      let key = normalize_interface_name name in
      ground (arith, ==_refl key, lookup-insert key key id cache)),
  tt,
)
snoc-IsCovered device_id name id cache (k ∷ keys) (first, h) = (
  (λ active.
      insert-is_some (normalize_interface_name name) (normalize_interface_name k.name) id cache
        (first active)),
  snoc-IsCovered device_id name id cache keys h,
)

snoc-HasDistinctNames :
    (device_id : ℕ) (name : Text) (id : ℕ) (cache : List (Text × ℕ)) (keys : List InterfaceKey)
    → lookup (normalize_interface_name name) cache ≡ none
    → IsCovered device_id cache keys
    → HasDistinctNames keys
    → HasDistinctNames
        (keys ++ record { id = id; device_id = device_id; name = name; deleted = false } ∷ [])
snoc-HasDistinctNames device_id name id cache [] fresh covered h = (tt, tt)
snoc-HasDistinctNames device_id name id cache (k ∷ keys) fresh (first, covered) (apart, h) = (
  All-append (λ j. Clashes k j → ⊥) keys
      (record { id = id; device_id = device_id; name = name; deleted = false } ∷ []) apart
      (
        (λ (k_kept, kept, device, same).
            let known = first (sym device, k_kept) in
            let unknown : is_some (lookup (normalize_interface_name k.name) cache) ≡ false =
              ap (λ n. is_some (lookup (normalize_interface_name n) cache)) (sym same)
              ∙ ap is_some fresh in
            absurd (cc)),
        tt,
      ),
  snoc-HasDistinctNames device_id name id cache keys fresh covered h,
)

create_interface-Grows :
    (name : Text) (s : Db)
    → lookup (normalize_interface_name name) s.cache ≡ none
    → Grows s (create_interface name s).1
create_interface-Grows name s fresh =
    let keys : keys_of (create_interface name s).1.interfaces
        ≡ keys_of s.interfaces ++ new_key name s ∷ [] =
      map-append key_of s.interfaces _ in
    record {
      device = refl;
      added = new_key name s ∷ [];
      rows = keys;
      each = ((refl, refl), tt);
      ready = λ h. record {
        covered =
            rw keys
              (snoc-IsCovered s.device.id name s.next_id s.cache (keys_of s.interfaces) h.covered);
        found = λ key id e.
            rw keys
              (elim (insert-entry (normalize_interface_name name) key s.next_id id s.cache e) [
                | inl (id_same, same) ↦
                    HasRow-last s.device.id key id (keys_of s.interfaces) (new_key name s)
                      ((refl, refl), id_same, same)
                | inr old ↦
                    HasRow-append s.device.id key id (keys_of s.interfaces) (new_key name s ∷ [])
                      (h.found key id old)
              ]);
      };
      distinct = λ h d. rw keys (
          snoc-HasDistinctNames s.device.id name s.next_id s.cache (keys_of s.interfaces) fresh
            h.covered d);
    }

fetched-Grows :
    (name : Text) (s : Db) (known : Option ℕ)
    → lookup (normalize_interface_name name) s.cache ≡ known
    → Grows s (fetched name s known).1
      × (lookup (normalize_interface_name name) (fetched name s known).1.cache
          ≡ some (fetched name s known).0)
fetched-Grows name s none fresh =
    let key = normalize_interface_name name in
    (
      create_interface-Grows name s fresh,
      ground (arith, ==_refl key, lookup-insert key key s.next_id s.cache),
    )
fetched-Grows name s (some id) known = (Grows-same s s refl refl refl, known)

-- Fetching an interface grows the table, and gives the identifier that the cache then has.
pub get_or_create_interface-Grows :
    (name : Text) (s : Db)
    → Grows s (get_or_create_interface name s).1
      × (lookup (normalize_interface_name name) (get_or_create_interface name s).1.cache
          ≡ some (get_or_create_interface name s).0)
unfolding get_or_create_interface
get_or_create_interface-Grows name s =
    fetched-Grows name s (lookup (normalize_interface_name name) s.cache) refl

update_interface-keys :
    (id : ℕ) (f : Interface → Interface) (rows : List Interface)
    → ((i : Interface) → key_of (f i) ≡ key_of i)
    → keys_of (update_interface id f rows) ≡ keys_of rows
unfolding update_interface
update_interface-keys id f [] h = refl
update_interface-keys id f (i ∷ rows) h =
    let rest = update_interface-keys id f rows h in
    elim (Bool-cases (i.id == id)) [
      | inl same ↦ rw (same, h i, rest)
      | inr other ↦ rw (other, rest)
    ]

apply_interface-key :
    (d : InterfaceData) (now : ℕ) (i : Interface) → key_of (apply_interface d now i) ≡ key_of i
unfolding apply_interface
apply_interface-key d now i = refl

pub store_interfaces-Grows :
    (now : ℕ) (reported : List InterfaceData) (s : Db) → Grows s (store_interfaces now reported s)
unfolding store_interfaces
store_interfaces-Grows now [] s = Grows-same s s refl refl refl
store_interfaces-Grows now (d ∷ more) s =
    let (id, s1) = get_or_create_interface d.name s in
    let s2 : Db = record s1 {
      interfaces = update_interface id (apply_interface d now) s1.interfaces;
    } in
    Grows-trans (get_or_create_interface-Grows d.name s).0 (
      Grows-trans
        (Grows-same s1 s2 refl refl (
          update_interface-keys id (apply_interface d now) s1.interfaces
            (apply_interface-key d now)))
        (store_interfaces-Grows now more s2))

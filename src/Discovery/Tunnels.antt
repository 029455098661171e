-- ===== src/Discovery/Tunnels.antt =====
-- The administrator's flag of a VPN tunnel survives the discoveries.
use netbuddy.Base.{
  ℕ, Text, ◌≡◌, refl, sym, ◌∙◌, ap, Bool, true, false, not, ◌&&◌, ◌||◌, List, [], ◌∷◌, ◌++◌, map,
  arith, Option, none, some, is_some, or_else, or_else_assoc, or_else-none, nat_eq, list_eq,
  list_beq_iff, ==_refl, contains, ◌==◌, Bool-cases, inl, inr, if◌then◌else◌,
}
use netbuddy.Discovery.Rows.{VpnTunnel, VpnTunnelData}
use netbuddy.Discovery.Tables.{Db}
use netbuddy.Discovery.Vpn.{
  is_tunnel, has_tunnel, update_tunnel, new_tunnel, write_tunnels, drop_gone, store_tunnels,
}

-- The flag of the last row of a name.
abbrev flag_of : ℕ → Text → VpnTunnel → Option Bool
flag_of device_id name r = if is_tunnel device_id name r then some r.relevant else none

abbrev pub relevance : ℕ → Text → List VpnTunnel → Option Bool
relevance device_id name [] = none
relevance device_id name (r ∷ rest) =
    or_else (relevance device_id name rest) (flag_of device_id name r)

abbrev pub names_of : List VpnTunnelData → List Text
names_of tunnels = map (λ t. t.name) tunnels

has_tunnel-relevance :
    (d : ℕ) (name : Text) (rows : List VpnTunnel)
    → has_tunnel d name rows ≡ is_some (relevance d name rows)
has_tunnel-relevance d name [] = refl
has_tunnel-relevance d name (r ∷ rest) = ground (arith, has_tunnel-relevance d name rest)

relevance-append :
    (d : ℕ) (name : Text) (a b : List VpnTunnel)
    → relevance d name (a ++ b) ≡ or_else (relevance d name b) (relevance d name a)
relevance-append d name [] b = sym (or_else-none (relevance d name b))
relevance-append d name (r ∷ a) b =
    ap (λ o. or_else o (flag_of d name r)) (relevance-append d name a b)
    ∙ or_else_assoc (relevance d name b) (relevance d name a) (flag_of d name r)

update_tunnel-relevance :
    (d : ℕ) (name : Text) (t : VpnTunnelData) (rows : List VpnTunnel)
    → relevance d name (update_tunnel d t rows) ≡ relevance d name rows
unfolding update_tunnel
update_tunnel-relevance d name t [] = refl
update_tunnel-relevance d name t (r ∷ rest) =
    elim (Bool-cases (is_tunnel d t.name r && not (has_tunnel d t.name rest))) [
      | inl last ↦
          rw last (ap (λ o. or_else o (flag_of d name r)) (update_tunnel-relevance d name t rest))
      | inr other ↦
          rw other (ap (λ o. or_else o (flag_of d name r)) (update_tunnel-relevance d name t rest))
    ]

-- What the new rows contribute.
abbrev fresh : Bool → Bool → Option Bool
fresh reported known = if reported && not known then some true else none

update_tunnel-has_tunnel :
    (d : ℕ) (name : Text) (t : VpnTunnelData) (rows : List VpnTunnel)
    → has_tunnel d name (update_tunnel d t rows) ≡ has_tunnel d name rows
update_tunnel-has_tunnel d name t rows =
    has_tunnel-relevance d name (update_tunnel d t rows)
    ∙ ap is_some (update_tunnel-relevance d name t rows)
    ∙ sym (has_tunnel-relevance d name rows)

-- A known name is not fresh, and an unknown one is.
fresh_known :
    (d : ℕ) (name : Text) (t : VpnTunnelData) (later : Bool) (old : List VpnTunnel)
    → has_tunnel d t.name old ≡ true
    → fresh later (has_tunnel d name old) ≡ fresh (t.name == name || later) (has_tunnel d name old)
fresh_known d name t later old known = elim (Bool-cases (t.name == name)) [
  | inl same ↦
      let here = ap (λ n. has_tunnel d n old) (sym ((list_beq_iff t.name name).0 same)) ∙ known in
      rw (same, here) (ground arith)
  | inr other ↦ rw other refl
]

fresh_unknown :
    (d : ℕ) (name : Text) (t : VpnTunnelData) (later : Bool) (old added : List VpnTunnel)
    → has_tunnel d t.name old ≡ false
    → or_else
        (fresh later (has_tunnel d name old))
        (relevance d name (added ++ new_tunnel d t ∷ []))
      ≡ or_else (fresh (t.name == name || later) (has_tunnel d name old)) (relevance d name added)
fresh_unknown d name t later old added unknown = elim (Bool-cases (t.name == name)) [
  | inl same ↦
      let here = ap (λ n. has_tunnel d n old) (sym ((list_beq_iff t.name name).0 same)) ∙ unknown in
      rw (relevance-append, same, ==_refl d, here) (ground arith)
  | inr other ↦ rw (relevance-append, other, ==_refl d) refl
]

write_tunnels-relevance :
    (d : ℕ) (name : Text) (ts : List VpnTunnelData) (old added : List VpnTunnel)
    → (relevance d name (write_tunnels d ts old added).0 ≡ relevance d name old)
      × (relevance d name (write_tunnels d ts old added).1
          ≡ or_else
              (fresh (contains name (names_of ts)) (has_tunnel d name old))
              (relevance d name added))
unfolding write_tunnels
write_tunnels-relevance d name [] old added = (refl, refl)
write_tunnels-relevance d name (t ∷ more) old added = elim (Bool-cases (has_tunnel d t.name old)) [
  | inl known ↦
      let (kept, more_added) = write_tunnels-relevance d name more (update_tunnel d t old) added in
      rw known (
        kept ∙ update_tunnel-relevance d name t old,
        more_added
            ∙ ap (λ b. or_else (fresh (contains name (names_of more)) b) (relevance d name added))
                (update_tunnel-has_tunnel d name t old)
            ∙ ap (λ o. or_else o (relevance d name added))
                (fresh_known d name t (contains name (names_of more)) old known),
      )
  | inr unknown ↦
      let (kept, more_added) =
        write_tunnels-relevance d name more old (added ++ new_tunnel d t ∷ []) in
      rw unknown (
        kept,
        more_added ∙ fresh_unknown d name t (contains name (names_of more)) old added unknown,
      )
]

unseen-flag_of :
    (d : ℕ) (name : Text) (seen : List Text) (r : VpnTunnel)
    → contains name seen ≡ true
    → contains r.name seen ≡ false
    → flag_of d name r ≡ none
unseen-flag_of d name seen r h unseen = elim (Bool-cases (r.name == name)) [
  | inl same ↦
      let here = ap (λ n. contains n seen) ((list_beq_iff r.name name).0 same) ∙ h in absurd (cc)
  | inr other ↦ rw other (ground arith)
]

drop_gone-relevance :
    (d : ℕ) (name : Text) (seen : List Text) (rows : List VpnTunnel)
    → contains name seen ≡ true
    → relevance d name (drop_gone d seen rows) ≡ relevance d name rows
unfolding drop_gone
drop_gone-relevance d name seen [] h = refl
drop_gone-relevance d name seen (r ∷ rest) h =
    let rest_kept = drop_gone-relevance d name seen rest h in
    elim (Bool-cases
      (is_tunnel d r.name r && not (has_tunnel d r.name rest) && not (contains r.name seen))) [
        | inl gone ↦ rw gone (
            rest_kept
            ∙ sym (
                ap (λ o. or_else (relevance d name rest) o)
                  (unseen-flag_of d name seen r h (ground arith))
                ∙ or_else-none (relevance d name rest)))
        | inr kept ↦ rw kept (ap (λ o. or_else o (flag_of d name r)) rest_kept)
      ]

abbrev pub or_true : Option Bool → Bool
or_true none = true
or_true (some relevant) = relevant

seen_flag :
    (before : Option Bool)
    → or_else (or_else (fresh true (is_some before)) none) before ≡ some (or_true before)
seen_flag none = refl
seen_flag (some relevant) = refl

-- A tunnel that the firewall reports again keeps the administrator's flag, and a new one is
-- relevant, whatever else is reported or gone.
pub store_tunnels-relevance :
    (tunnels : List VpnTunnelData) (s : Db) (name : Text)
    → contains name (names_of tunnels) ≡ true
    → relevance s.device.id name (store_tunnels tunnels s).tunnels
      ≡ some (or_true (relevance s.device.id name s.tunnels))
unfolding store_tunnels
store_tunnels-relevance tunnels s name reported =
    let d = s.device.id in
    let (old, added) = write_tunnels d tunnels s.tunnels [] in
    let (kept, more) = write_tunnels-relevance d name tunnels s.tunnels [] in
    rw
      (
        relevance-append,
        drop_gone-relevance d name (names_of tunnels) old reported,
        kept,
        more,
        reported,
        has_tunnel-relevance d name s.tunnels,
      )
      (seen_flag (relevance d name s.tunnels))

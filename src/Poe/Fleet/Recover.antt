-- ===== src/Poe/Fleet/Recover.antt =====
-- The recovery of all hits: each once, each with its event.
use mathlib.Core.List.Perm
use mathlib.Core.List.{Perm, perm_middle, map-append}
use netbuddy.Base.{
  ℕ, Text, ◌≡◌, refl, sym, ◌∙◌, List, [], ◌∷◌, ◌++◌, map, append-nil, append_assoc, nat_eq,
  nat_beq_iff, ◌==◌, All, All-append, ok, and_then-eq-ok, ok_injective, Bool-cases, inl, inr, subst,
}
use netbuddy.Base.Dict.{insert}
use netbuddy.Profile.{PoeControlSpec}
use netbuddy.Hardware.{Switch}
use netbuddy.Poe.Policy.{PoeEvent, Store, recover_with_policy}
use netbuddy.Poe.Policy.Audit.{recover_with_policy-audit}
use netbuddy.Poe.Fleet.{
  StuckHit, Fleet, ops_of, LiveConnection, add_to_group, group_from, by_device, Clock, request_of,
  recover_group, recover_groups, recover_hits,
}

abbrev Groups : Type 0
Groups = List (ℕ × List StuckHit)

abbrev all_hits : Groups → List StuckHit
all_hits [] = []
all_hits ((id, hits) ∷ groups) = hits ++ all_hits groups

abbrev OfDevice : ℕ → StuckHit → Type 0
OfDevice id h = h.device.id ≡ id

abbrev IsGrouped : Groups → Type 0
IsGrouped groups = All (λ g. All (OfDevice g.0) g.1) groups

add_to_group-perm :
    (h : StuckHit) (groups : Groups) → Perm (all_hits (add_to_group h groups)) (h ∷ all_hits groups)
unfolding add_to_group
add_to_group-perm h [] = Perm.refl _
add_to_group-perm h ((id, hits) ∷ groups) = elim (Bool-cases (id == h.device.id)) [
  | inl same ↦ rw (same, append_assoc) (perm_middle hits (all_hits groups))
  | inr other ↦ rw other (
      Perm.trans (Perm.append_left hits (add_to_group-perm h groups))
        (perm_middle hits (all_hits groups)))
]

group_from-perm :
    (groups : Groups) (hits : List StuckHit)
    → Perm (all_hits (group_from groups hits)) (all_hits groups ++ hits)
unfolding group_from
group_from-perm groups [] = rw append-nil (Perm.refl _)
group_from-perm groups (h ∷ hits) = Perm.trans (group_from-perm (add_to_group h groups) hits) (
    Perm.trans (Perm.append_right hits (add_to_group-perm h groups))
      (Perm.symm (perm_middle (all_hits groups) hits)))

add_to_group-IsGrouped :
    (h : StuckHit) (groups : Groups) → IsGrouped groups → IsGrouped (add_to_group h groups)
unfolding add_to_group
add_to_group-IsGrouped h [] g = ((refl, tt), tt)
add_to_group-IsGrouped h ((id, hits) ∷ groups) (g, gs) = elim (Bool-cases (id == h.device.id)) [
  | inl same ↦
      rw same (
        All-append (OfDevice id) hits (h ∷ []) g (sym ((nat_beq_iff id h.device.id).0 same), tt),
        gs,
      )
  | inr other ↦ rw other (g, add_to_group-IsGrouped h groups gs)
]

group_from-IsGrouped :
    (groups : Groups) (hits : List StuckHit) → IsGrouped groups → IsGrouped (group_from groups hits)
unfolding group_from
group_from-IsGrouped groups [] g = g
group_from-IsGrouped groups (h ∷ hits) g =
    group_from-IsGrouped (add_to_group h groups) hits (add_to_group-IsGrouped h groups g)

-- The switch and the port of a hit, and of an event.
abbrev pub key_of_hit : StuckHit → ℕ × Text
key_of_hit h = (h.device.id, h.port.port)

abbrev pub key_of_event : PoeEvent → ℕ × Text
key_of_event e = (e.device_id, e.port)

module _ (connection : LiveConnection) (clock : Clock) (actor : Text) where
  recover_group_lem :
      (switch : Switch) (spec : PoeControlSpec) (id : ℕ) (hits : List StuckHit) (s : Fleet)
      → All (OfDevice id) hits
      → ((recover_group connection clock actor switch spec id hits s).1.events
          ≡ s.events ++ (recover_group connection clock actor switch spec id hits s).0)
        × (map key_of_event (recover_group connection clock actor switch spec id hits s).0
            ≡ map key_of_hit hits)
  unfolding recover_group
  recover_group_lem switch spec id [] s g = (sym (append-nil s.events), refl)
  recover_group_lem switch spec id (h ∷ hits) s (same, g) =
      let before : Store = record { events = s.events; ops = ops_of id s } in
      let r = request_of connection clock actor id h in
      let (event, after) = recover_with_policy switch spec r (clock.now s) (clock.stamp s) before in
      let (appended, device, port, _, _) =
        recover_with_policy-audit switch spec r (clock.now s) (clock.stamp s) before in
      let (table, keys) =
        recover_group_lem switch spec id hits
          (record { events = after.events; sent = insert id after.ops s.sent }) g in
      (table ∙ rw (appended, append_assoc) refl, rw (device, port, keys, same) refl)

  recover_groups_lem :
      (groups : Groups) (s : Fleet) {events : List PoeEvent}
      → IsGrouped groups
      → (recover_groups connection clock actor groups s).0 ≡ ok events
      → ((recover_groups connection clock actor groups s).1.events ≡ s.events ++ events)
        × (map key_of_event events ≡ map key_of_hit (all_hits groups))
  unfolding recover_groups
  recover_groups_lem [] s g e = rw (← ok_injective e) (sym (append-nil s.events), refl)
  recover_groups_lem ((id, []) ∷ groups) s (_, g) e = recover_groups_lem groups s g e
  recover_groups_lem ((id, h ∷ hits) ∷ groups) s ((same, mates), g) e =
      let (switch, connected, rest) = and_then-eq-ok (connection h.device h.cred) _ s e in
      let first = recover_group connection clock actor switch h.spec h.device.id (h ∷ hits) s in
      let (more, later, ends) =
        and_then-eq-ok (recover_groups connection clock actor groups first.1).0 _ _ rest in
      let mates' : All (OfDevice h.device.id) (h ∷ hits) =
        subst (λ x. All (OfDevice x) (h ∷ hits)) (sym same) (same, mates) in
      let (table, keys) = recover_group_lem switch h.spec h.device.id (h ∷ hits) s mates' in
      let (more_table, more_keys) = recover_groups_lem groups first.1 g later in
      rw (connected, later, ← ok_injective ends)
        (rw (more_table, table, append_assoc), rw (map-append, keys, more_keys, map-append))

-- A recovery that returns has bounced or skipped every hit exactly once: it returns as many
-- events for each port of each switch as there are hits of it, and writes exactly these events.
pub recover_hits-perm :
    (connection : LiveConnection) (clock : Clock) (actor : Text) (hits : List StuckHit) (s : Fleet)
    (events : List PoeEvent)
    → (recover_hits connection clock actor hits s).0 ≡ ok events
    → ((recover_hits connection clock actor hits s).1.events ≡ s.events ++ events)
      × Perm (map key_of_event events) (map key_of_hit hits)
unfolding recover_hits
recover_hits-perm connection clock actor hits s events e =
    let (table, keys) =
      recover_groups_lem connection clock actor (by_device hits) s (group_from-IsGrouped [] hits tt)
        e in
    (table, rw keys (Perm.map key_of_hit (group_from-perm [] hits)))

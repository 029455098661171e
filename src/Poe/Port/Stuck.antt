-- ===== src/Poe/Port/Stuck.antt =====
-- When a port counts as stuck.
use netbuddy.Base.{
  Text, text, lower, ◌≡◌, ◌↔◌, ◌⊎◌, true, false, Option, none, some, arith, nat_eq, list_eq,
  list_beq_iff,
}
use netbuddy.Poe.Port.{PoePort, delivering, faulted, searching, is_stuck}

-- A port is stuck exactly when its access point is offline, its link is known to be down, and its
-- PoE state is a fault or a search.
pub is_stuck_iff :
    (p : PoePort) (ap_status : Option Text)
    → (is_stuck p ap_status ≡ true) ↔ (
        (ap_status ≡ some (text "offline"))
        × (p.link_up ≡ some false)
        × ((faulted p ≡ true) ⊎ (searching p ≡ true)))
unfolding is_stuck
is_stuck_iff p (some status) = ground (arith, list_beq_iff status (text "offline"))
is_stuck_iff p none = ground arith

-- `on` is neither a fault nor a search.
delivering_quiet : (p : PoePort) → delivering p ≡ true → (faulted p ≡ false) × (searching p ≡ false)
unfolding delivering faulted searching
delivering_quiet p h =
    let e : text "on" ≡ lower p.poe_status =
      (list_beq_iff (text "on") (lower p.poe_status)).0 (ground arith) in
    (rw (← e), rw (← e))

-- A port that delivers power is not stuck, whatever its access point's status.
pub delivering-not_stuck :
    (p : PoePort) (ap_status : Option Text) → delivering p ≡ true → is_stuck p ap_status ≡ false
unfolding is_stuck
delivering-not_stuck p ap_status h = ground (arith, delivering_quiet p h)

-- ===== src/Poe/Port.antt =====
-- The PoE view of a port, and when it counts as stuck (backend/src/netbuddy/services/poe.py).
pub mod Stuck
use netbuddy.Base.{
  ℕ, Text, text, lower, Bool, true, false, not, ◌||◌, List, [], ◌∷◌, Option, none, some, contains,
  nat_eq, list_eq, ◌==◌, if◌then◌else◌,
}

pub record PoePort : Type 0 where
  pub port : Text
  pub poe_state : Option Text
  pub poe_status : Text
  pub poe_class : Option Text
  pub power_mw : Option ℕ
  pub link_up : Option Bool

abbrev pub delivering_states : List Text
delivering_states = text "on" ∷ []

abbrev pub fault_states : List Text
fault_states =
    text "fault"
    ∷ text "error"
    ∷ text "denied"
    ∷ text "overload"
    ∷ text "otherfault"
    ∷ text "short"
    ∷ []

abbrev pub searching_states : List Text
searching_states = text "searching" ∷ []

unfoldable pub delivering : PoePort → Bool
delivering p = contains (lower p.poe_status) delivering_states

unfoldable pub faulted : PoePort → Bool
faulted p = contains (lower p.poe_status) fault_states

unfoldable pub searching : PoePort → Bool
searching p = contains (lower p.poe_status) searching_states

-- `link_up is not False`
abbrev pub not_false : Option Bool → Bool
not_false (some false) = false
not_false _ = true

abbrev pub is_offline : Option Text → Bool
is_offline none = false
is_offline (some status) = status == text "offline"

unfoldable pub is_stuck : PoePort → Option Text → Bool
is_stuck p ap_status =
    if not (is_offline ap_status)
    then false
    else if not_false p.link_up
    then false
    else faulted p || searching p

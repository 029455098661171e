-- ===== src/Control/Physical.antt =====
-- Which interfaces are physical ports (`is_physical` of
-- backend/src/netbuddy/services/lldp_control.py).
use netbuddy.Base.{
  Text, text, lower, strip, starts_with, is_digit, Bool, false, not, ◌&&◌, ◌||◌, List, [], ◌∷◌, any,
  nat_eq, ◌==◌,
}

abbrev logical_prefixes : List Text
logical_prefixes =
    text "vlan"
    ∷ text "vl"
    ∷ text "loopback"
    ∷ text "port-channel"
    ∷ text "portchannel"
    ∷ text "null"
    ∷ text "tun"
    ∷ text "mgmt"
    ∷ text "stack"
    ∷ text "cpu"
    ∷ text "bundle"
    ∷ []

-- `lo\d` and `po\d`
abbrev is_numbered : Text → Bool
is_numbered (a ∷ b ∷ c ∷ s) = (a == b'l' || a == b'p') && (b == b'o' && is_digit c)
is_numbered _ = false

unfoldable pub is_logical : Text → Bool
is_logical s = any (λ p. starts_with p s) logical_prefixes || is_numbered s

unfoldable pub is_physical : Text → Bool
unfolding is_logical
is_physical name = not (is_logical (lower (strip name)))

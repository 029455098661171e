-- ===== src/Hosts/Tests.antt =====
-- Runs of the correlation of hosts, and its theorems at concrete addresses.
use netbuddy.Base.{
  nat_eq, Text, text, lower_char, ◌≡◌, refl, List, [], ◌∷◌, ◌++◌, some, Option, list_eq,
}
use netbuddy.Hosts.{ArpRow, normalize_mac}
use netbuddy.Hosts.Mac.{IsCanonical, normalize_mac-separator, normalize_mac-IsCanonical}

test_mac : normalize_mac (text "00:1A-2b 3C.4d:5E") ≡ text "001a2b3c4d5e"
unfolding normalize_mac lower_char
test_mac = refl

test_short_mac : normalize_mac (text "00:1a:2b") ≡ []
unfolding normalize_mac lower_char
test_short_mac = refl

normalize_mac-separator_example :
    normalize_mac (text "001A2B" ++ b'.' ∷ text "3C4D5E")
    ≡ normalize_mac (text "001A2B" ++ text "3C4D5E")
unfolding lower_char
normalize_mac-separator_example = normalize_mac-separator (text "001A2B") (text "3C4D5E") b'.' refl

normalize_mac-IsCanonical_example :
    IsCanonical (normalize_mac (text "001A.2B3C.4D5E"))
    × (normalize_mac (normalize_mac (text "001A.2B3C.4D5E"))
        ≡ normalize_mac (text "001A.2B3C.4D5E"))
normalize_mac-IsCanonical_example = normalize_mac-IsCanonical (text "001A.2B3C.4D5E")

abbrev mac : Text
mac = text "001a2b3c4d5e"

abbrev rows : List ArpRow
rows =
    record { mac = mac; ip_address = text "10.0.0.1" }
    ∷ record { mac = []; ip_address = text "10.0.0.9" }
    ∷ record { mac = mac; ip_address = text "10.0.0.2" }
    ∷ []

abbrev resolver : Text → Option Text
resolver ip = some (text "printer")

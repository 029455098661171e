-- ===== src/Ifname/Tests.antt =====
-- The program's own tests of the names of interfaces, and the theorems at such names.
use netbuddy.Base.{nat_eq, Text, text, lower, lower_char, ◌≡◌, refl, ◌++◌, list_eq}
use mathlib.Core.List.{cons≢nil}
use netbuddy.Base.Dict.{lookup}
use netbuddy.Ifname.{normalize_interface_name, split_name, prefixes, or_same}
use netbuddy.Ifname.Aliases.{
  IsNumber, normalize_interface_name-word, normalize_interface_name-hyphen,
}

test_ethernet : normalize_interface_name (text " Ethernet1/1 ") ≡ text "eth1/1"
unfolding normalize_interface_name split_name lower_char
test_ethernet = refl

test_hyphen : normalize_interface_name (text "lag-1") ≡ text "lag-1"
unfolding normalize_interface_name split_name lower_char
test_hyphen = refl

abbrev ten : Text
ten = text "10"

ten-IsNumber : IsNumber ten
ten-IsNumber = (refl, ((refl, refl), tt))

normalize_interface_name-word_example :
    normalize_interface_name (text "Vl" ++ ten)
    ≡ or_same (lower (text "Vl")) (lookup (lower (text "Vl")) prefixes) ++ ten
normalize_interface_name-word_example =
    normalize_interface_name-word (text "Vl") ten cons≢nil (refl, (refl, tt)) ten-IsNumber

normalize_interface_name-hyphen_example :
    (normalize_interface_name (text "port-channel" ++ ten) ≡ text "port-channel" ++ ten)
    × (normalize_interface_name (text "portchannel" ++ ten) ≡ text "po" ++ ten)
normalize_interface_name-hyphen_example = normalize_interface_name-hyphen ten ten-IsNumber

-- ===== src/Crawl/Guess.antt =====
-- What a crawl guesses of a neighbour (`guess_adapter` and `guess_device_type` of
-- backend/src/netbuddy/services/crawl.py, and backend/src/netbuddy/services/oui.py). The table of
-- vendors is the one that oui.py reads from its file.
use netbuddy.Base.{
  or_empty, Text, text, lower, is_infix, starts_with, take, ◌||◌, any, List, [], ◌∷◌, Option, none,
  some, nat_eq, list_eq, ◌==◌, if◌then◌else◌,
}
use netbuddy.Base.Dict.{lookup}
use netbuddy.Inventory.{DeviceType, switch, firewall, ap}
use netbuddy.Hosts.{normalize_mac}

-- `_ADAPTER_HINTS`
abbrev pub adapter_hints : List (Text × Text)
adapter_hints =
    (text "os10", text "dell_os10")
    ∷ (text "powerconnect", text "dell_os6")
    ∷ (text "n-series", text "dell_os6")
    ∷ (text "arubaos-cx", text "aruba_cx")
    ∷ (text "procurve", text "aruba_procurve")
    ∷ (text "switch, revision", text "aruba_procurve")
    ∷ (text "huawei", text "huawei_vrp")
    ∷ (text "cbs350", text "cisco_sb")
    ∷ (text "sg300", text "cisco_sb")
    ∷ (text "sg350", text "cisco_sb")
    ∷ (text "sg500", text "cisco_sb")
    ∷ (text "aruba", text "aruba_cx")
    ∷ (text "fortigate", text "fortigate")
    ∷ (text "fortinet", text "fortigate")
    ∷ (text "fiberstore", text "fs_ruijie")
    ∷ (text "fsos", text "fs_ruijie")
    ∷ (text "cisco ios", text "cisco_ios")
    ∷ (text "catalyst", text "cisco_ios")
    ∷ (text "meraki", text "meraki")
    ∷ (text "ubiquiti", text "unifi")
    ∷ (text "unifi", text "unifi")
    ∷ []

-- `_OUI_ADAPTER_HINTS`
abbrev pub oui_adapter_hints : List (Text × Text)
oui_adapter_hints = (text "fortinet", text "fortigate") ∷ (text "ubiquiti", text "unifi") ∷ []

-- The first needle that the text contains.
unfoldable pub first_hint : List (Text × Text) → Text → Option Text
first_hint [] s = none
first_hint ((needle, adapter_id) ∷ hints) s =
    if is_infix needle s then some adapter_id else first_hint hints s

abbrev pub vendor_of : List (Text × Text) → Text → Option Text
vendor_of vendors [] = none
vendor_of vendors (c ∷ canonical) = lookup (take 6 (c ∷ canonical)) vendors

unfoldable pub vendor_for_mac : List (Text × Text) → Text → Option Text
vendor_for_mac vendors mac = vendor_of vendors (normalize_mac mac)

abbrev pub or_default : Option Text → Option Text → Option Text
or_default none default = default
or_default (some adapter_id) default = some adapter_id

-- `if chassis_id:`
abbrev pub chassis_hint : List (Text × Text) → Text → Option Text
chassis_hint vendors [] = none
chassis_hint vendors (c ∷ chassis_id) =
    first_hint oui_adapter_hints (lower (or_empty (vendor_for_mac vendors (c ∷ chassis_id))))

unfoldable pub guess_adapter :
    List (Text × Text) → Option Text → (default : Option Text) → (chassis_id : Text) → Option Text
unfolding first_hint vendor_for_mac
guess_adapter vendors description default chassis_id =
    or_default (first_hint adapter_hints (lower (or_empty description)))
      (or_default (chassis_hint vendors chassis_id) default)

unfoldable pub guess_device_type : Text → Option Text → DeviceType
guess_device_type adapter_id description =
    let desc = lower (or_empty description) in
    if adapter_id == text "fortigate"
    then firewall
    else if is_infix (text "access point") desc
        || any (λ p. starts_with p desc) (text "u6" ∷ text "u7" ∷ text "uap" ∷ [])
    then ap
    else switch

-- ===== src/Vlans/Config.antt =====
-- The VLANs of a switch's running configuration, read line by line (`parse_cli_config` of
-- backend/src/netbuddy/services/vlan_survey.py).
use netbuddy.Base.{
  ℕ, ◌+◌, Text, text, strip, splitlines, starts_with, Bool, true, false, contains, List, [], ◌∷◌,
  ◌++◌, Option, none, some, or_else, nat_eq, list_eq, ◌==◌, if◌then◌else◌,
}
use netbuddy.Base.Dict.{lookup, insert, setdefault}
use netbuddy.Vlans.Range.{expand_vlan_list, is_catch_all, count_ports}
use netbuddy.Vlans.Rows.{SviInfo, DeviceVlanInfo, switch, new_info, new_svi}
use netbuddy.Vlans.Patterns.{
  svi_line, interface_line, is_terminator, is_config_line, vlan_line, name_line, untagged_line,
  tagged_line, ip_line, helper_line, relay_line, access_line, trunk_line,
}

-- The variables of the loop; `pending` has the VLANs that the next name is for.
pub record Reader : Type 0 where
  pub info : DeviceVlanInfo
  pub ctx : Option Text
  pub vlan_block : Option ℕ
  pub svi : Option SviInfo
  pub pending : List ℕ

abbrev pub add_svi : SviInfo → DeviceVlanInfo → DeviceVlanInfo
add_svi svi info = record info { svis = info.svis ++ svi ∷ [] }

abbrev pub close_with : Option SviInfo → Reader → Reader
close_with none s = s
close_with (some svi) s = record s { info = add_svi svi s.info; svi = none }

unfoldable pub close_svi : Reader → Reader
close_svi s = close_with s.svi s

-- `for v in ids: info.vlans.setdefault(v, None)`
abbrev pub define_vlan : ℕ → DeviceVlanInfo → DeviceVlanInfo
define_vlan v info = record info { vlans = setdefault v none info.vlans }

abbrev pub define_vlans : List ℕ → DeviceVlanInfo → DeviceVlanInfo
define_vlans [] info = info
define_vlans (v ∷ ids) info = define_vlans ids (define_vlan v info)

abbrev pub or_zero : Option ℕ → ℕ
or_zero none = 0
or_zero (some n) = n

abbrev pub add_access_ports : ℕ → ℕ → DeviceVlanInfo → DeviceVlanInfo
add_access_ports v n info = record info {
  access_ports = insert v (or_zero (lookup v info.access_ports) + n) info.access_ports;
}

abbrev pub add_trunk_vlan : ℕ → DeviceVlanInfo → DeviceVlanInfo
add_trunk_vlan v info =
    if contains v info.trunk_vlans
    then info
    else record info { trunk_vlans = info.trunk_vlans ++ v ∷ [] }

-- The loop over a trunk's VLANs: each is added, and defined.
abbrev pub add_trunk_vlans : List ℕ → DeviceVlanInfo → DeviceVlanInfo
add_trunk_vlans [] info = info
add_trunk_vlans (v ∷ ids) info = add_trunk_vlans ids (define_vlan v (add_trunk_vlan v info))

-- `if len(ids) == 1`, and no name yet: the name is set.
abbrev pub is_named : Option (Option Text) → Bool
is_named (some (some (c ∷ name))) = true
is_named _ = false

abbrev pub set_name : List ℕ → Text → DeviceVlanInfo → DeviceVlanInfo
set_name (v ∷ []) name info =
    if is_named (lookup v info.vlans)
    then info
    else record info { vlans = insert v (some name) info.vlans }
set_name _ name info = info

abbrev pub is_pending : List ℕ → Bool
is_pending [] = false
is_pending (v ∷ ids) = true

abbrev pub only_one : List ℕ → Option ℕ
only_one (v ∷ []) = some v
only_one _ = none

-- A helper address in a VLAN's block goes to the first of its interfaces.
abbrev pub add_helper : ℕ → Text → List SviInfo → List SviInfo
add_helper v helper [] = []
add_helper v helper (svi ∷ svis) =
    if svi.vlan_id == v
    then record svi { helpers = svi.helpers ++ helper ∷ [] } ∷ svis
    else svi ∷ add_helper v helper svis

-- The steps for the lines that end a context, or begin one: `none` where the next test is tried.
abbrev pub enter_svi : Option ℕ → Reader → Option Reader
enter_svi none s = none
enter_svi (some v) s = some (record (close_svi s) {
  ctx = some (text "vlan");
  vlan_block = none;
  svi = some (new_svi v none);
})

abbrev pub enter_interface : Option Text → Reader → Option Reader
enter_interface none s = none
enter_interface (some name) s = some (record (close_svi s) { ctx = some name; vlan_block = none })

abbrev pub leave : Text → Reader → Option Reader
leave line s =
    if is_terminator line
    then some (record (close_svi s) { ctx = none; vlan_block = none })
    else (if is_config_line line then some s else none)

-- Outside every interface: a definition, and a name.
abbrev pub define : Option Text → Option Text → Reader → Option Reader
define (some list) none s =
    let ids = expand_vlan_list list in
    some (record s { info = define_vlans ids s.info; pending = ids; vlan_block = only_one ids })
define _ _ s = none

abbrev pub give_name : Option Text → Option Text → Reader → Option Reader
give_name (some name) none s =
    if is_pending s.pending then some (record s { info = set_name s.pending name s.info }) else none
give_name _ _ s = none

-- In a VLAN's block.
abbrev pub with_info : (DeviceVlanInfo → DeviceVlanInfo) → Reader → Reader
with_info f s = record s { info = f s.info }

abbrev pub block_untagged : ℕ → Option Text → Reader → Option Reader
block_untagged v none s = none
block_untagged v (some ports) s = some (with_info (add_access_ports v (count_ports ports)) s)

abbrev pub block_tagged : ℕ → Option Text → Reader → Option Reader
block_tagged v none s = none
block_tagged v (some ports) s = some (with_info (add_trunk_vlan v) s)

abbrev pub block_ip : ℕ → Option Text → Reader → Option Reader
block_ip v none s = none
block_ip v (some ip) s = some (with_info (add_svi (new_svi v (some ip))) s)

abbrev pub block_helper : ℕ → Option Text → Reader → Option Reader
block_helper v none s = none
block_helper v (some helper) s =
    some (with_info (λ info. record info { svis = add_helper v helper info.svis }) s)

abbrev pub in_block : Option ℕ → Option Text → Text → Reader → Option Reader
in_block (some v) none line s = or_else (block_untagged v (untagged_line line) s) (
    or_else (block_tagged v (tagged_line line) s)
      (or_else (block_ip v (ip_line line) s) (block_helper v (helper_line line) s)))
in_block _ _ line s = none

-- In the interface of a VLAN.
abbrev pub svi_ip : SviInfo → Option Text → Reader → Option Reader
svi_ip svi none s = none
svi_ip svi (some ip) s =
    some
      (record s { svi = some (record svi { ip = some ip }); info = define_vlan svi.vlan_id s.info })

abbrev pub svi_relay : SviInfo → Option Text → Reader → Option Reader
svi_relay svi none s = none
svi_relay svi (some helper) s =
    some (record s { svi = some (record svi { helpers = svi.helpers ++ helper ∷ [] }) })

abbrev pub in_svi : Option SviInfo → Text → Reader → Option Reader
in_svi none line s = none
in_svi (some svi) line s = or_else (svi_ip svi (ip_line line) s) (svi_relay svi (relay_line line) s)

-- In another interface.
abbrev pub port_access : Option ℕ → Reader → Option Reader
port_access none s = none
port_access (some v) s = some (with_info (λ info. define_vlan v (add_access_ports v 1 info)) s)

abbrev pub port_trunk : Option Text → Reader → Option Reader
port_trunk none s = none
port_trunk (some list) s =
    let ids = expand_vlan_list list in
    some (if is_catch_all ids then s else with_info (add_trunk_vlans ids) s)

abbrev pub in_port : Option Text → Text → Reader → Option Reader
in_port none line s = none
in_port (some ctx) line s =
    if starts_with (text "vlan") ctx
    then none
    else or_else (port_access (access_line line) s) (port_trunk (trunk_line line) s)

abbrev pub or_same : Option Reader → Reader → Reader
or_same none s = s
or_same (some s') s = s'

-- One turn of the loop: the first step that applies is taken, and then the next line is read. The
-- context of a VLAN's interface is noted without the number, of which only the beginning is read.
unfoldable pub read_line : Text → Reader → Reader
unfolding close_svi
read_line line s =
    or_same
      (or_else (enter_svi (svi_line line) s) (
        or_else (enter_interface (interface_line line) s) (
          or_else (leave line s) (
            or_else (define (vlan_line line) s.ctx s) (
              or_else (give_name (name_line line) s.ctx s) (
                or_else (in_block s.vlan_block s.ctx line s)
                  (or_else (in_svi s.svi line s) (in_port s.ctx line s))))))))
      s

unfoldable pub read_lines : List Text → Reader → Reader
unfolding read_line
read_lines [] s = s
read_lines (line ∷ lines) s = read_lines lines (read_line (strip line) s)

abbrev pub start : Text → Reader
start hostname = record {
  info = new_info hostname none switch;
  ctx = none;
  vlan_block = none;
  svi = none;
  pending = [];
}

unfoldable pub parse_cli_config : Text → Text → DeviceVlanInfo
unfolding read_lines close_svi
parse_cli_config hostname config =
    (close_svi (read_lines (splitlines config) (start hostname))).info

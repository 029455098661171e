-- ===== src/Vlans/Consistent.antt =====
-- What holds of the VLANs of a switch, whatever its configuration says.
use netbuddy.Base.{
  ℕ, Text, text, strip, splitlines, starts_with, true, List, [], ◌∷◌, Option, none, some, or_else,
  Bool-cases, inl, inr, All, ◌≡◌,
}
use netbuddy.Vlans.Range.{
  expand_vlan_list, expand_vlan_list-All, is_vlan_id, is_catch_all, count_ports,
}
use netbuddy.Vlans.Rows.{SviInfo, DeviceVlanInfo, new_svi}
use netbuddy.Vlans.Patterns.{
  svi_line, interface_line, is_terminator, is_config_line, vlan_line, name_line, untagged_line,
  tagged_line, ip_line, helper_line, relay_line, access_line, trunk_line,
}
use netbuddy.Vlans.Config.{
  Reader, define_vlan, define_vlans, add_access_ports, add_trunk_vlan, add_trunk_vlans, set_name,
  is_pending, only_one, close_svi, enter_svi, enter_interface, leave, define, give_name, in_block,
  block_untagged, block_tagged, block_ip, block_helper, in_svi, svi_ip, svi_relay, in_port,
  port_access, port_trunk, or_same, read_line, read_lines, parse_cli_config, start, add_svi,
  close_with, with_info, add_helper,
}
use netbuddy.Vlans.Defined.{
  IsDefined, IsConsistent, lookup-define, define-kept, define-IsConsistent,
  define_vlans-IsConsistent, set_name-kept, set_name-IsConsistent, add_access_ports-IsConsistent,
  add_trunk_vlan-IsConsistent, add_trunk-kept, add_trunk_vlans-IsConsistent, add_trunk_vlans-kept,
}

abbrev IsBlock : DeviceVlanInfo → Option ℕ → Type 0
IsBlock info none = Unit
IsBlock info (some v) = (is_vlan_id v ≡ true) × IsDefined info v

record IsReady (s : Reader) : Type 0 where
  consistent : IsConsistent s.info
  block : IsBlock s.info s.vlan_block

-- A step that does not apply keeps everything.
abbrev IsReadyStep : Option Reader → Type 0
IsReadyStep none = Unit
IsReadyStep (some s) = IsReady s

or_else-IsReadyStep :
    (a b : Option Reader) → IsReadyStep a → IsReadyStep b → IsReadyStep (or_else a b)
or_else-IsReadyStep none b h k = k
or_else-IsReadyStep (some s) b h k = h

-- The interfaces of VLANs are no part of this.
svis-IsConsistent :
    (info : DeviceVlanInfo) (svis : List SviInfo)
    → IsConsistent info
    → IsConsistent (record info { svis = svis })
svis-IsConsistent info svis c = record {
  vlans_once = c.vlans_once;
  ports_once = c.ports_once;
  trunks_once = c.trunks_once;
  ports_defined = c.ports_defined;
  trunks_defined = c.trunks_defined;
}

close_with-IsConsistent :
    (svi : Option SviInfo) (s : Reader) → IsConsistent s.info → IsConsistent (close_with svi s).info
close_with-IsConsistent none s c = c
close_with-IsConsistent (some svi) s c = svis-IsConsistent s.info _ c

with_info-IsReady :
    (f : DeviceVlanInfo → DeviceVlanInfo) (s : Reader)
    → (IsConsistent s.info → IsConsistent (f s.info))
    → ((w : ℕ) → IsDefined s.info w → IsDefined (f s.info) w)
    → IsReady s
    → IsReady (with_info f s)
with_info-IsReady f s c k r = record {
  consistent = c r.consistent;
  block = kept s.vlan_block r.block;
}
  where
    kept : (b : Option ℕ) → IsBlock s.info b → IsBlock (f s.info) b
    kept none h = tt
    kept (some v) h = (h.0, k v h.1)

only_one-IsBlock :
    (ids : List ℕ) (info : DeviceVlanInfo)
    → All (λ v. is_vlan_id v ≡ true) ids
    → IsBlock (define_vlans ids info) (only_one ids)
only_one-IsBlock [] info h = tt
only_one-IsBlock (v ∷ []) info (valid, h) = (valid, lookup-define v info)
only_one-IsBlock (v ∷ u ∷ ids) info h = tt

module _ (s : Reader) (r : IsReady s) where
  closed : IsConsistent (close_svi s).info
  unfolding close_svi
  closed = close_with-IsConsistent s.svi s r.consistent

  enter_svi-IsReady : (o : Option ℕ) → IsReadyStep (enter_svi o s)
  enter_svi-IsReady none = tt
  enter_svi-IsReady (some v) = record { consistent = closed; block = tt }

  enter_interface-IsReady : (o : Option Text) → IsReadyStep (enter_interface o s)
  enter_interface-IsReady none = tt
  enter_interface-IsReady (some name) = record { consistent = closed; block = tt }

  leave-IsReady : (line : Text) → IsReadyStep (leave line s)
  leave-IsReady line = elim (Bool-cases (is_terminator line)) [
    | inl ends ↦ rw ends (record { consistent = closed; block = tt })
    | inr goes ↦ elim (Bool-cases (is_config_line line)) [
      | inl config ↦ rw (goes, config) r
      | inr other ↦ rw (goes, other) tt
    ]
  ]

  define-IsReady : (list ctx : Option Text) → IsReadyStep (define list ctx s)
  define-IsReady none ctx = tt
  define-IsReady (some list) (some ctx) = tt
  define-IsReady (some list) none = record {
    consistent = define_vlans-IsConsistent (expand_vlan_list list) s.info r.consistent;
    block = only_one-IsBlock (expand_vlan_list list) s.info (expand_vlan_list-All list);
  }

  give_name-IsReady : (name ctx : Option Text) → IsReadyStep (give_name name ctx s)
  give_name-IsReady none ctx = tt
  give_name-IsReady (some name) (some ctx) = tt
  give_name-IsReady (some name) none = elim (Bool-cases (is_pending s.pending)) [
    | inl pending ↦ rw pending (
        with_info-IsReady (set_name s.pending name) s (set_name-IsConsistent s.pending name s.info)
          (set_name-kept s.pending name s.info) r)
    | inr idle ↦ rw idle tt
  ]

  in_svi-IsReady : (svi : Option SviInfo) (line : Text) → IsReadyStep (in_svi svi line s)
  in_svi-IsReady none line = tt
  in_svi-IsReady (some svi) line =
      or_else-IsReadyStep (svi_ip svi (ip_line line) s) (svi_relay svi (relay_line line) s)
        (ip (ip_line line)) (relay (relay_line line))
    where
      ip : (o : Option Text) → IsReadyStep (svi_ip svi o s)
      ip none = tt
      ip (some a) =
          let d =
            with_info-IsReady (define_vlan svi.vlan_id) s (define-IsConsistent svi.vlan_id s.info)
              (λ w. define-kept svi.vlan_id w s.info) r in
          record { consistent = d.consistent; block = d.block }

      relay : (o : Option Text) → IsReadyStep (svi_relay svi o s)
      relay none = tt
      relay (some a) = record { consistent = r.consistent; block = r.block }

  in_port-IsReady : (ctx : Option Text) (line : Text) → IsReadyStep (in_port ctx line s)
  in_port-IsReady none line = tt
  in_port-IsReady (some ctx) line = elim (Bool-cases (starts_with (text "vlan") ctx)) [
    | inl svi ↦ rw svi tt
    | inr port ↦ rw port (
        or_else-IsReadyStep (port_access (access_line line) s) (port_trunk (trunk_line line) s)
          (access (access_line line)) (trunk (trunk_line line)))
  ]
    where
      access : (o : Option ℕ) → IsReadyStep (port_access o s)
      access none = tt
      access (some v) =
          with_info-IsReady (λ info. define_vlan v (add_access_ports v 1 info)) s
            (λ c.
              add_access_ports-IsConsistent v 1 (define_vlan v s.info) (lookup-define v s.info)
                (define-IsConsistent v s.info c))
            (λ w. define-kept v w s.info) r

      trunk : (o : Option Text) → IsReadyStep (port_trunk o s)
      trunk none = tt
      trunk (some list) = elim (Bool-cases (is_catch_all (expand_vlan_list list))) [
        | inl most ↦ rw most r
        | inr few ↦ rw few (
            with_info-IsReady (add_trunk_vlans (expand_vlan_list list)) s
              (add_trunk_vlans-IsConsistent (expand_vlan_list list) s.info
                (expand_vlan_list-All list))
              (λ w. add_trunk_vlans-kept (expand_vlan_list list) w s.info) r)
      ]

  in_block-IsReady :
      (block : Option ℕ) (ctx : Option Text) (line : Text)
      → IsBlock s.info block
      → IsReadyStep (in_block block ctx line s)
  in_block-IsReady none ctx line h = tt
  in_block-IsReady (some v) (some ctx) line h = tt
  in_block-IsReady (some v) none line (valid, known) =
      or_else-IsReadyStep (block_untagged v (untagged_line line) s) _
        (untagged (untagged_line line))
        (or_else-IsReadyStep (block_tagged v (tagged_line line) s) _ (tagged (tagged_line line)) (
          or_else-IsReadyStep (block_ip v (ip_line line) s) _ (ip (ip_line line))
            (helper (helper_line line))))
    where
      untagged : (o : Option Text) → IsReadyStep (block_untagged v o s)
      untagged none = tt
      untagged (some ports) =
          with_info-IsReady (add_access_ports v (count_ports ports)) s
            (add_access_ports-IsConsistent v (count_ports ports) s.info known) (λ w k. k) r

      tagged : (o : Option Text) → IsReadyStep (block_tagged v o s)
      tagged none = tt
      tagged (some ports) =
          with_info-IsReady (add_trunk_vlan v) s (add_trunk_vlan-IsConsistent v s.info valid known)
            (λ w. add_trunk-kept v w s.info) r

      ip : (o : Option Text) → IsReadyStep (block_ip v o s)
      ip none = tt
      ip (some a) =
          with_info-IsReady (add_svi (new_svi v (some a))) s (svis-IsConsistent s.info _) (λ w k. k)
            r

      helper : (o : Option Text) → IsReadyStep (block_helper v o s)
      helper none = tt
      helper (some a) =
          with_info-IsReady (λ info. record info { svis = add_helper v a info.svis }) s
            (svis-IsConsistent s.info _) (λ w k. k) r

or_same-IsReady :
    (o : Option Reader) (s : Reader) → IsReadyStep o → IsReady s → IsReady (or_same o s)
or_same-IsReady none s h r = r
or_same-IsReady (some s') s h r = h

read_line-IsReady : (line : Text) (s : Reader) → IsReady s → IsReady (read_line line s)
unfolding read_line
read_line-IsReady line s r =
    or_same-IsReady _ s
      (or_else-IsReadyStep _ _ (enter_svi-IsReady s r (svi_line line)) (
        or_else-IsReadyStep _ _ (enter_interface-IsReady s r (interface_line line)) (
          or_else-IsReadyStep _ _ (leave-IsReady s r line) (
            or_else-IsReadyStep _ _ (define-IsReady s r (vlan_line line) s.ctx) (
              or_else-IsReadyStep _ _ (give_name-IsReady s r (name_line line) s.ctx) (
                or_else-IsReadyStep _ _ (in_block-IsReady s r s.vlan_block s.ctx line r.block) (
                  or_else-IsReadyStep _ _ (in_svi-IsReady s r s.svi line)
                    (in_port-IsReady s r s.ctx line))))))))
      r

read_lines-IsReady : (lines : List Text) (s : Reader) → IsReady s → IsReady (read_lines lines s)
unfolding read_lines
read_lines-IsReady [] s r = r
read_lines-IsReady (line ∷ lines) s r =
    read_lines-IsReady lines _ (read_line-IsReady (strip line) s r)

-- Whatever a configuration says, each of its VLANs is defined once and has one count of access ports;
-- a VLAN with access ports is defined; and a VLAN that trunks carry is listed once, is defined, and is
-- a number from 1 to 4094.
pub parse_cli_config-IsConsistent :
    (hostname config : Text) → IsConsistent (parse_cli_config hostname config)
unfolding parse_cli_config
parse_cli_config-IsConsistent hostname config =
    let begin : IsReady (start hostname) = record {
      consistent = record {
        vlans_once = tt;
        ports_once = tt;
        trunks_once = tt;
        ports_defined = tt;
        trunks_defined = tt;
      };
      block = tt;
    } in
    let s = read_lines (splitlines config) (start hostname) in
    closed s (read_lines-IsReady (splitlines config) (start hostname) begin)

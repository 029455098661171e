-- ===== src/Profile.antt =====
-- The write paths of a vendor profile (backend/src/netbuddy/adapters/profile.py): which commands
-- read a status and which configuration lines change it.
use netbuddy.Base.{ℕ, Text, text, List, [], ◌∷◌, Option}

pub record LldpControlSpec : Type 0 where
  pub status_command : Text
  pub enabled_marker : Text
  pub config_enter : List Text
  pub config_exit : List Text
  pub enable_global : List Text
  pub enable_interface : List Text
  pub interface_enter : Text
  pub interface_exit : Text
  pub save : List Text

pub record PoeControlSpec : Type 0 where
  pub status_command : Text
  pub link_command : Text
  pub parser : Text
  pub config_enter : List Text
  pub config_exit : List Text
  pub interface_enter : Text
  pub interface_exit : Text
  pub recover_down : List Text
  pub recover_up : List Text
  pub recover_wait_seconds : ℕ

pub record PortVlanControlSpec : Type 0 where
  pub config_enter : List Text
  pub config_exit : List Text
  pub interface_enter : Text
  pub interface_exit : Text
  pub set_access : List Text
  pub reset_access : List Text
  pub save : List Text
  pub save_marker : Option Text
  pub verify_command : Option Text
  pub verify_pattern : Option Text

-- The defaults of the fields.
abbrev pub default_poe_spec : PoeControlSpec
default_poe_spec = record {
  status_command = text "show power inline";
  link_command = text "show interfaces status";
  parser = text "dell_os6";
  config_enter = text "configure" ∷ [];
  config_exit = text "end" ∷ [];
  interface_enter = text "interface {name}";
  interface_exit = text "exit";
  recover_down = text "shutdown" ∷ [];
  recover_up = text "no shutdown" ∷ [];
  recover_wait_seconds = 5;
}

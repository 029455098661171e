-- ===== src/Poe/Tests.antt =====
-- A small switch and its output, as in the program's own tests, what the program does with it, and
-- the theorems at such inputs.
use netbuddy.Base.{
  Text, text, lower_char, ◌≡◌, refl, Bool, true, false, none, some, List, [], ◌∷◌, ◌++◌, arith, ok,
  any, contains, list_eq, nat_eq, if◌then◌else◌,
}
use netbuddy.Profile.{default_poe_spec}
use netbuddy.Hardware.{Op, config, Switch}
use netbuddy.Poe.Parse.{parse_dell_os6_power, parse_dell_os6_link, parsers, has_no_poe}
use netbuddy.Poe.Bounce.{
  recover_port, shut_port, open_port, seq, port_status, find_port, scan_poe, scan_by, scan_with,
  read_links, with_links, report,
}
use netbuddy.Poe.Policy.{Request, PowerCycle, UnifiPort}
use netbuddy.Poe.Policy.Limit.{IsLimited, Attempt, cli, unifi, attempts, attempts-IsLimited}

abbrev newline : Text
newline = 10 ∷ []

abbrev pub power_output : Text
power_output =
    text "Port  Powered  State  Prio Status"
    ++ newline
    ++ text "Gi1/0/7  My AP  Auto Low On 4/4 7000"
    ++ newline
    ++ text "Gi1/0/8  auto Low Fault Unknown/Unknown"
    ++ newline

test_power :
    parse_dell_os6_power power_output
    ≡ (
      text "Gi1/0/7",
      record {
        port = text "Gi1/0/7";
        poe_state = some (text "auto");
        poe_status = text "On";
        poe_class = some (text "4/4");
        power_mw = some 7000;
        link_up = none;
      },
    )
      ∷ (
        text "Gi1/0/8",
        record {
          port = text "Gi1/0/8";
          poe_state = some (text "auto");
          poe_status = text "Fault";
          poe_class = some (text "Unknown/Unknown");
          power_mw = none;
          link_up = none;
        },
      )
      ∷ []
unfolding parse_dell_os6_power lower_char
test_power = refl

test_link :
    parse_dell_os6_link (text "Gi1/0/7 N/A 100 Auto Down On" ++ newline)
    ≡ (text "Gi1/0/7", false) ∷ []
unfolding parse_dell_os6_link
test_link = refl

-- A switch that answers `Fault` until a port was opened.
abbrev is_open_line : Text → Bool
is_open_line line = contains line (text "no shutdown" ∷ [])

abbrev is_open : Op → Bool
is_open (config lines) = any is_open_line lines
is_open _ = false

abbrev pub small_switch : Switch
small_switch = record {
  on_command = λ ops cmd. ok (
      if contains cmd (text "show power inline" ∷ [])
      then (if any is_open ops
          then text "Gi1/0/7 auto Low On 4/4 7000"
          else text "Gi1/0/7 auto Low Fault Unknown/Unknown")
      else text "Gi1/0/7 N/A 100 Auto Down On");
  on_config = λ ops lines. ok (text "ok");
  on_get_config = λ ops. ok (text "hostname sw");
  on_get_interfaces = λ ops. ok [];
}

abbrev pub port7 : Text
port7 = text "Gi1/0/7"

unfoldable pub program : Unit {0}
unfolding recover_port shut_port open_port seq port_status find_port scan_poe scan_by parsers
    scan_with read_links with_links has_no_poe report lower_char
program = tt

test_recover :
    (recover_port small_switch default_poe_spec port7 []).0
    ≡ ok (record {
      port = port7;
      status_before = some (text "Fault");
      status_after = some (text "On");
      recovered = true;
    })
unfolding program
test_recover = refl

abbrev pub request7 : Request
request7 = record {
  device_id = 1;
  port = port7;
  ap_mac = none;
  ap_name = none;
  actor = some (text "worker");
}

abbrev pub power_cycle : PowerCycle
power_cycle site switch_mac port_idx = ok tt

abbrev pub no_port : UnifiPort
no_port = record { site = none; switch_mac = none; port_idx = none }

abbrev five_attempts : List Attempt
five_attempts =
    cli small_switch default_poe_spec [] request7 100 100
    ∷ unifi power_cycle no_port request7 200 150
    ∷ cli small_switch default_poe_spec [] request7 300 300
    ∷ unifi power_cycle no_port request7 400 400
    ∷ cli small_switch default_poe_spec [] request7 500 500
    ∷ []

attempts-IsLimited_example : IsLimited 500 (attempts five_attempts [])
attempts-IsLimited_example =
    attempts-IsLimited 0 five_attempts [] (omega arith) (λ t device_id port h. omega arith)

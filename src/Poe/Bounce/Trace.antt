-- ===== src/Poe/Bounce/Trace.antt =====
-- What a bounce sends to the switch, and that it never leaves a port shut on its own account.
use netbuddy.Base.{
  ◌||◌, Text, ◌≡◌, refl, sym, List, [], ◌∷◌, ◌++◌, append_assoc, append-nil, Result, ok, raised,
  inl, inr, Action, Exception, Option, none, some, All, All-append, Bool, true, false, pure, ◌>>=◌,
  ap, ◌∙◌, if◌then◌else◌, ◌⊎◌, and_then, nat_eq, list_eq,
}
use netbuddy.Base.Dict.{lookup}
use netbuddy.Profile.{PoeControlSpec}
use netbuddy.Hardware.{Op, command, config, sleep_for, Switch, send_command}
use netbuddy.Poe.Port.{PoePort, delivering}
use netbuddy.Poe.Parse.{Parser, parsers, has_no_poe}
use netbuddy.Poe.Bounce.{
  scan_by, read_links, scan_with, scan_poe, port_status, seq, PoeRecoverResult,
}

-- The calls that only read, with the two commands of the profile.
abbrev pub IsRead : PoeControlSpec → Op → Type 0
IsRead spec op = (op ≡ command spec.status_command) ⊎ (op ≡ command spec.link_command)

-- An action that sends nothing but reads, whatever it returns.
abbrev pub OnlyReads : PoeControlSpec → {A : Type 0} → Action (List Op) A → Type 0
OnlyReads spec m =
    (ops : List Op) → (sent : List Op) × ((m ops).1 ≡ ops ++ sent) × All (IsRead spec) sent

module _ (spec : PoeControlSpec) where
  pure-OnlyReads : {A : Type 0} (r : Result A) → OnlyReads spec (λ ops. (r, ops))
  pure-OnlyReads r ops = ([], sym (append-nil ops), tt)

  and_then-OnlyReads :
      {A B : Type 0} (r : Result A) (f : A → Action (List Op) B)
      → ((a : A) → OnlyReads spec (f a))
      → OnlyReads spec (and_then r f)
  and_then-OnlyReads (ok a) f h = h a
  and_then-OnlyReads {B} (raised e) f h = pure-OnlyReads {A = B} (raised e)

  bind-OnlyReads :
      {A B : Type 0} (m : Action (List Op) A) (f : A → Action (List Op) B)
      → OnlyReads spec m
      → ((a : A) → OnlyReads spec (f a))
      → OnlyReads spec (m >>= f)
  bind-OnlyReads m f h k ops =
      let (first, here, reads) = h ops in
      let (second, there, more) = and_then-OnlyReads (m ops).0 f k (m ops).1 in
      (
        first ++ second,
        there ∙ ap (λ l. l ++ second) here ∙ append_assoc ops first second,
        All-append (IsRead spec) first second reads more,
      )

module _ (switch : Switch) (spec : PoeControlSpec) where
  read_links-OnlyReads :
      (parser : Parser) (ports : List (Text × PoePort))
      → OnlyReads spec (read_links switch spec parser ports)
  unfolding read_links
  read_links-OnlyReads parser [] = pure-OnlyReads spec {A = List PoePort} (ok [])
  read_links-OnlyReads parser (p ∷ ports) =
      bind-OnlyReads spec (send_command switch spec.link_command) _
        (λ ops. (command spec.link_command ∷ [], refl, (inr refl, tt)))
        (λ link_out. pure-OnlyReads spec {A = List PoePort} (ok []))

  scan_rest-OnlyReads :
      (parser : Parser) (power_out : Text) (unsupported : Bool)
      → OnlyReads spec
          (if unsupported then pure [] else read_links switch spec parser (parser.power power_out))
  scan_rest-OnlyReads parser power_out true = pure-OnlyReads spec {A = List PoePort} (ok [])
  scan_rest-OnlyReads parser power_out false = read_links-OnlyReads parser (parser.power power_out)

  scan_with-OnlyReads : (parser : Parser) → OnlyReads spec (scan_with switch spec parser)
  unfolding scan_with
  scan_with-OnlyReads parser =
      bind-OnlyReads spec (send_command switch spec.status_command) _
        (λ ops. (command spec.status_command ∷ [], refl, (inl refl, tt)))
        (λ power_out. scan_rest-OnlyReads parser power_out (has_no_poe power_out))

  scan_by-OnlyReads : (parser : Option Parser) → OnlyReads spec (scan_by switch spec parser)
  unfolding scan_by
  scan_by-OnlyReads none = pure-OnlyReads spec {A = List PoePort} (ok [])
  scan_by-OnlyReads (some parser) = scan_with-OnlyReads parser

  -- Reading the PoE state of a switch sends it the profile's two show commands and nothing else,
  -- also when a call raises.
  pub scan_poe-OnlyReads : OnlyReads spec (scan_poe switch spec)
  unfolding scan_poe
  scan_poe-OnlyReads = scan_by-OnlyReads (lookup spec.parser parsers)

  pub port_status-OnlyReads : (port : Text) → OnlyReads spec (port_status switch spec port)
  unfolding port_status
  port_status-OnlyReads port =
      bind-OnlyReads spec (scan_poe switch spec) _ scan_poe-OnlyReads
        (λ ports. pure-OnlyReads spec {A = Option PoePort} (ok none))

-- Whether a port has come back: it delivers power, or its link is up.
abbrev is_up : Option Bool → Bool
is_up none = false
is_up (some up) = up

abbrev pub is_back : Option PoePort → Bool
is_back none = false
is_back (some p) = delivering p || is_up p.link_up

abbrev pub status_in : Option PoePort → Option Text
status_in none = none
status_in (some p) = some p.poe_status

-- What is reported tells what the look at the port after `ops` has found.
abbrev pub IsReported : Switch → PoeControlSpec → Text → List Op → PoeRecoverResult → Type 0
IsReported switch spec port ops r =
    (after : Option PoePort) × ((port_status switch spec port ops).0 ≡ ok after)
    × (r.port ≡ port)
    × (r.status_after ≡ status_in after)
    × (r.recovered ≡ is_back after)

-- What a bounce sends after its first look at the port, and how it ends.
pub data Bounced (switch : Switch) (spec : PoeControlSpec) (port : Text) (before : List Op)
    (result : Result PoeRecoverResult) (sent : List Op) : Type 0 where
  -- The first look, or filling in the port's name, raised: nothing is written.
  untouched :
      (e : Exception) → result ≡ raised e → sent ≡ [] → Bounced switch spec port before result sent
  -- The switch refused the lines that shut the port.
  refused :
      (down : List Text) (e : Exception)
      → seq spec port spec.recover_down ≡ ok down
      → switch.on_config before down ≡ raised e
      → result ≡ raised e
      → sent ≡ config down ∷ []
      → Bounced switch spec port before result sent
  -- The port was shut, and the lines that open it again were sent, and refused.
  shut :
      (down up : List Text) (e : Exception)
      → seq spec port spec.recover_down ≡ ok down
      → seq spec port spec.recover_up ≡ ok up
      → switch.on_config (before ++ config down ∷ sleep_for spec.recover_wait_seconds ∷ []) up
        ≡ raised e
      → result ≡ raised e
      → sent ≡ config down ∷ sleep_for spec.recover_wait_seconds ∷ config up ∷ []
      → Bounced switch spec port before result sent
  -- The port was shut and opened, and then only looked at.
  whole :
      (down up : List Text) (reads : List Op)
      → seq spec port spec.recover_down ≡ ok down
      → seq spec port spec.recover_up ≡ ok up
      → All (IsRead spec) reads
      → sent
        ≡ config down
          ∷ sleep_for spec.recover_wait_seconds
          ∷ config up
          ∷ sleep_for spec.recover_wait_seconds
          ∷ reads
      → ((r : PoeRecoverResult)
          → result ≡ ok r
          → IsReported switch spec port
              (((before ++ config down ∷ sleep_for spec.recover_wait_seconds ∷ [])
                  ++ config up ∷ [])
                ++ sleep_for spec.recover_wait_seconds ∷ [])
              r)
      → Bounced switch spec port before result sent

module _ (switch : Switch) (spec : PoeControlSpec) (port : Text) where
  abbrev waiting : List Text → List Op
  waiting down = config down ∷ sleep_for spec.recover_wait_seconds ∷ []

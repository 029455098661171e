-- ===== src/Unifi/Provisioned.antt =====
-- What a run that provides VLANs to a controller sends, and what it reports.
use mathlib.Core.Path.{fun_ext}
use netbuddy.Base.{
  refl, arith, ◌&&◌, ◌||◌, ◌==◌, Bool-cases, inl, inr, option_eq, map, Option, none, some, ℕ, Text,
  Bool, true, false, contains, List, [], ◌∷◌, ◌++◌, append-nil, append_assoc, some, nat_eq, list_eq,
  if◌then◌else◌, Action, ok, pure, ◌>>=◌, ◌>>◌, ran, ok_injective, ◌≡◌, sym, ap, ◌∙◌,
}
use netbuddy.Base.Dict.{lookup}
use netbuddy.Unifi.Raw.{RawNetwork, UnifiNetwork, parse_network}
use netbuddy.Unifi.Console.{
  Answers, Sent, login, get_networks, change, post_network, base_url, networks,
  create_vlan_only_network, write,
}
use netbuddy.Unifi.Ran.{and_then-pure, networks-sends, at_console-ran, networks-ran}
use netbuddy.Unifi.Ports.{
  add_present, present_vlans, VlanProvisionReport, Progress, create_unless, provision_each,
  provision, report, provision_vlan_only_networks,
}

-- Whether one of these networks has a VLAN, with VLANs enabled.
abbrev pub has_vlan : List RawNetwork → ℕ → Bool
has_vlan [] vlan = false
has_vlan (n ∷ raws) vlan = n.vlan_enabled && n.vlan == some vlan || has_vlan raws vlan

add_present_lem :
    (n : UnifiNetwork) (given : Option ℕ) (vlan : ℕ) (present : List ℕ)
    → contains vlan (add_present n given present)
      ≡ (n.vlan_enabled && given == some vlan || contains vlan present)
add_present_lem n none vlan present = ground arith
add_present_lem n (some v) vlan present = elim (Bool-cases n.vlan_enabled) [
  | inl enabled ↦ rw enabled refl
  | inr off ↦ rw off refl
]

contains-present_vlans :
    (raws : List RawNetwork) (vlan : ℕ)
    → contains vlan (present_vlans (map parse_network raws)) ≡ has_vlan raws vlan
unfolding present_vlans parse_network
contains-present_vlans [] vlan = refl
contains-present_vlans (n ∷ raws) vlan =
    add_present_lem (parse_network n) n.vlan vlan (present_vlans (map parse_network raws))
    ∙ ap (λ b. n.vlan_enabled && n.vlan == some vlan || b) (contains-present_vlans raws vlan)

-- The VLANs that are asked for and not there, and those that are.
abbrev pub missing : (ℕ → Bool) → List (ℕ × Text) → List ℕ
missing is_there [] = []
missing is_there ((vlan, name) ∷ specs) =
    if is_there vlan then missing is_there specs else vlan ∷ missing is_there specs

abbrev pub there : (ℕ → Bool) → List (ℕ × Text) → List ℕ
there is_there [] = []
there is_there ((vlan, name) ∷ specs) =
    if is_there vlan then vlan ∷ there is_there specs else there is_there specs

-- One creation for each that is missing, and none in a dry run.
abbrev pub posts : Text → Bool → (ℕ → Bool) → List (ℕ × Text) → List Sent
posts site dry_run is_there [] = []
posts site dry_run is_there ((vlan, name) ∷ specs) =
    if is_there vlan
    then posts site dry_run is_there specs
    else (if dry_run
        then posts site dry_run is_there specs
        else change (post_network site name vlan) ∷ posts site dry_run is_there specs)

module _ (controller : Answers) (unifi_site : Text) where
  create-sends :
      (vlan : ℕ) (name : Text) (s : List Sent)
      → ((create_vlan_only_network controller name vlan unifi_site >> pure tt) s).1
        ≡ s ++ change (post_network unifi_site name vlan) ∷ []
  unfolding create_vlan_only_network write
  create-sends vlan name s =
      and_then-pure (create_vlan_only_network controller name vlan unifi_site s).0 (λ _. tt) _
      ∙ and_then-pure (controller.change s (post_network unifi_site name vlan)) _ _

  -- What `m`, entered at `p` and `s`, has to have done with VLANs when it succeeds.
  abbrev Ran : List ℕ → List ℕ → List Sent → (Progress → Action (List Sent) Progress) → Type 0
  Ran created existing sent m =
      (p : Progress) (s : List Sent) (r : Progress)
      → (m p s).0 ≡ ok r
      → (r.created ≡ p.created ++ created)
        × (r.existing ≡ p.existing ++ existing)
        × ((m p s).1 ≡ s ++ sent)

  -- One VLAN, by whether it is there and whether the run is dry, in front of the others.
  step-Ran :
      (is_there dry_run : Bool) (vlan : ℕ) (name : Text) (created existing : List ℕ)
      (sent : List Sent) (rest : Progress → Action (List Sent) Progress)
      → Ran created existing sent rest
      → Ran
          (if is_there then created else vlan ∷ created)
          (if is_there then vlan ∷ existing else existing)
          (if is_there
            then sent
            else (if dry_run then sent else change (post_network unifi_site name vlan) ∷ sent))
          (λ p.
            if is_there
            then rest (record p { existing = p.existing ++ vlan ∷ [] })
            else create_unless controller unifi_site dry_run vlan name
              >> rest (record p { created = p.created ++ vlan ∷ [] }))
  step-Ran true dry_run vlan name created existing sent rest ih p s r h =
      let (a, b, c) = ih (record p { existing = p.existing ++ vlan ∷ [] }) s r h in
      (a, b ∙ append_assoc p.existing (vlan ∷ []) existing, c)
  step-Ran false true vlan name created existing sent rest ih p s r h =
      let (a, b, c) = ih (record p { created = p.created ++ vlan ∷ [] }) s r h in
      (a ∙ append_assoc p.created (vlan ∷ []) created, b, c)
  step-Ran false false vlan name created existing sent rest ih p s r h =
      let (_, _, k, same) =
        ran (create_unless controller unifi_site false vlan name)
          (λ _. rest (record p { created = p.created ++ vlan ∷ [] })) s h in
      let (a, b, c) = ih (record p { created = p.created ++ vlan ∷ [] }) _ r k in
      (
        a ∙ append_assoc p.created (vlan ∷ []) created,
        b,
        same
            ∙ c
            ∙ ap (λ t. t ++ sent) (create-sends vlan name s)
            ∙ append_assoc s (change (post_network unifi_site name vlan) ∷ []) sent,
      )

  provision_each-Ran :
      (dry_run : Bool) (present : List ℕ) (specs : List (ℕ × Text))
      → Ran
          (missing (λ v. contains v present) specs)
          (there (λ v. contains v present) specs)
          (posts unifi_site dry_run (λ v. contains v present) specs)
          (provision_each controller unifi_site dry_run present specs)
  unfolding provision_each
  provision_each-Ran dry_run present [] p s r h = (
    ap (λ q. q.created) (sym (ok_injective h)) ∙ sym (append-nil p.created),
    ap (λ q. q.existing) (sym (ok_injective h)) ∙ sym (append-nil p.existing),
    sym (append-nil s),
  )
  provision_each-Ran dry_run present ((vlan, name) ∷ specs) p s r h =
      step-Ran (contains vlan present) dry_run vlan name _ _ _
        (provision_each controller unifi_site dry_run present specs)
        (provision_each-Ran dry_run present specs) p s r h

  -- The second look at the networks, and the report.
  report-ran :
      (dry_run : Bool) (existing : List UnifiNetwork) (p : Progress) (s : List Sent)
      {r : VlanProvisionReport}
      → (((if dry_run then pure existing else networks controller unifi_site) >>= λ found.
            pure (report controller unifi_site p found))
          s).0
        ≡ ok r
      → (r.created ≡ p.created)
        × (r.existing ≡ p.existing)
        × ((((if dry_run then pure existing else networks controller unifi_site) >>= λ found.
                pure (report controller unifi_site p found))
              s).1
            ≡ s ++ (if dry_run then [] else get_networks unifi_site ∷ []))
  report-ran true existing p s h = (
    ap (λ q. q.created) (sym (ok_injective h)),
    ap (λ q. q.existing) (sym (ok_injective h)),
    sym (append-nil s),
  )
  report-ran false existing p s h =
      let (found, _, k, same) =
        ran (networks controller unifi_site) (λ found. pure (report controller unifi_site p found))
          s h in
      (
        ap (λ q. q.created) (sym (ok_injective k)),
        ap (λ q. q.existing) (sym (ok_injective k)),
        same ∙ networks-sends controller unifi_site s,
      )

  provision-ran :
      (specs : List (ℕ × Text)) (dry_run : Bool) (s : List Sent) (r : VlanProvisionReport)
      → (provision controller unifi_site dry_run specs s).0 ≡ ok r
      → (raws : List RawNetwork) × (controller.networks s unifi_site ≡ ok raws)
        × (r.created ≡ missing (has_vlan raws) specs)
        × (r.existing ≡ there (has_vlan raws) specs)
        × ((provision controller unifi_site dry_run specs s).1
            ≡ s
              ++ get_networks unifi_site ∷ posts unifi_site dry_run (has_vlan raws) specs
              ++ (if dry_run then [] else get_networks unifi_site ∷ []))
  provision-ran specs dry_run s r h =
      let (found, looked, h, listed) = ran (networks controller unifi_site) _ s h in
      let (p, each, h, provided) =
        ran
          (provision_each controller unifi_site dry_run (present_vlans found) specs
            (record { created = []; existing = [] }))
          _ _ h in
      let (c, e, sent) = provision_each-Ran dry_run (present_vlans found) specs _ _ p each in
      let (c', e', again) = report-ran dry_run found p _ h in
      let (raws, answered, parsed) = networks-ran controller unifi_site s looked in
      let test : (λ v. contains v (present_vlans found)) ≡ has_vlan raws =
        ap (λ f v. contains v (present_vlans f)) (sym parsed)
        ∙ fun_ext (contains-present_vlans raws) in
      (
        raws,
        answered,
        c' ∙ c ∙ ap (λ q. missing q specs) test,
        e' ∙ e ∙ ap (λ q. there q specs) test,
        listed
            ∙ provided
            ∙ again
            ∙ ap (λ t. t ++ (if dry_run then [] else get_networks unifi_site ∷ []))
                (sent
                  ∙ ap
                      (λ q.
                        (networks controller unifi_site s).1 ++ posts unifi_site dry_run q specs)
                      test
                  ∙ ap (λ t. t ++ posts unifi_site dry_run (has_vlan raws) specs)
                      (networks-sends controller unifi_site s)
                  ∙ append_assoc s (get_networks unifi_site ∷ []) _),
      )

  -- A run that gives a report has looked at the networks of the site right after the login. It
  -- reports as created the VLANs that no network of the answer with VLANs enabled has, and as existing the others, both
  -- in the order asked for; it has sent a creation for each of the former, or none in a dry run, and
  -- looked at the networks once more unless the run was dry, and it has sent nothing else.
  pub provision_vlan_only_networks-missing :
      (consoles : List (Text × Text)) (site : Text) (specs : List (ℕ × Text)) (dry_run : Bool)
      (s : List Sent) (r : VlanProvisionReport)
      → (provision_vlan_only_networks controller unifi_site consoles site specs dry_run s).0 ≡ ok r
      → (ip : Text) × (raws : List RawNetwork) × (lookup site consoles ≡ some ip)
        × (controller.networks (s ++ login (base_url controller ip) ∷ []) unifi_site ≡ ok raws)
        × (r.created ≡ missing (has_vlan raws) specs)
        × (r.existing ≡ there (has_vlan raws) specs)
        × ((provision_vlan_only_networks controller unifi_site consoles site specs dry_run s).1
            ≡ s
              ++ login (base_url controller ip)
                ∷ get_networks unifi_site
                ∷ posts unifi_site dry_run (has_vlan raws) specs
              ++ (if dry_run then [] else get_networks unifi_site ∷ []))
  unfolding provision_vlan_only_networks
  provision_vlan_only_networks-missing consoles site specs dry_run s r h =
      let (ip, console, h, entered) = at_console-ran controller (lookup site consoles) _ s h in
      let (raws, answered, c, e, sent) = provision-ran specs dry_run _ r h in
      (
        ip,
        raws,
        console,
        answered,
        c,
        e,
        entered
            ∙ sent
            ∙ ap (λ t. t ++ (if dry_run then [] else get_networks unifi_site ∷ []))
                (append_assoc s (login (base_url controller ip) ∷ []) _),
      )

-- ===== src/Unifi/Assigned.antt =====
-- What putting a port into a VLAN sends to a controller (`UnifiConsole.set_port_access_vlan` and
-- `assign_unifi_port_vlan` of backend/src/netbuddy/services/unifi_local.py).
use netbuddy.Base.{
  IsFirst, IsFirst-cons, ◌&&◌, option_eq, map, lower, ℕ, Text, text, or_empty, Bool, List, [], ◌∷◌,
  ◌++◌, append_assoc, some_injective, subst, Option, none, some, nat_eq, list_eq, ◌==◌, Bool-cases,
  inl, inr, if◌then◌else◌, ok, ran, ok_injective, ◌≡◌, refl, sym, ap, ◌∙◌,
}
use netbuddy.Base.Dict.{lookup}
use netbuddy.Unifi.Raw.{
  number, string, Override, RawDevice, RawNetwork, UnifiNetwork, str, parse_network,
}
use netbuddy.Unifi.Console.{
  Answers, Sent, login, get_networks, get_devices, change, put_overrides, base_url, networks,
  devices, device_by_ip, write, find, is_device, access_overrides, vlan_network, put_access,
  set_port_access_vlan, assign_to, find_switch, assign_unifi_port_vlan,
}
use netbuddy.Unifi.Ran.{and_then-pure, networks-sends, at_console-ran, networks-ran}

find-IsFirst :
    {A : Type 0} (p : A → Bool) (xs : List A) {x : A} → find p xs ≡ some x → IsFirst p xs x
find-IsFirst p [] h = absurd (cc)
find-IsFirst p (y ∷ xs) {x} h = elim (Bool-cases (p y)) [
  | inl here ↦
      subst (IsFirst p (y ∷ xs))
        (some_injective (sym (ap (λ b. if b then some y else find p xs) here) ∙ h))
        (record { before = []; after = xs; split = refl; others = tt; holds = here })
  | inr other ↦
      IsFirst-cons p y xs other
        (find-IsFirst p xs (sym (ap (λ b. if b then some y else find p xs) other) ∙ h))
]

find-map-IsFirst :
    {A B : Type 0} (f : A → B) (p : B → Bool) (xs : List A) {y : B}
    → find p (map f xs) ≡ some y
    → (x : A) × (f x ≡ y) × IsFirst (λ x. p (f x)) xs x
find-map-IsFirst f p [] h = absurd (cc)
find-map-IsFirst f p (z ∷ xs) {y} h = elim (Bool-cases (p (f z))) [
  | inl here ↦ (
    z,
    some_injective (sym (ap (λ b. if b then some (f z) else find p (map f xs)) here) ∙ h),
    record { before = []; after = xs; split = refl; others = tt; holds = here },
  )
  | inr other ↦
      let (x, e, first) =
        find-map-IsFirst f p xs
          (sym (ap (λ b. if b then some (f z) else find p (map f xs)) other) ∙ h) in
      (x, e, IsFirst-cons (λ x. p (f x)) z xs other first)
]

-- What is written over the settings of a port.
abbrev pub vlan_settings : ℕ → Text → Override
vlan_settings port_idx id =
    (text "forward", string (text "native"))
    ∷ (text "native_networkconf_id", string id)
    ∷ (text "port_idx", number port_idx)
    ∷ []

module _ (controller : Answers) (unifi_site : Text) where
  devices-sends :
      (s : List Sent) → (devices controller unifi_site s).1 ≡ s ++ get_devices unifi_site ∷ []
  unfolding devices
  devices-sends s = refl

  device_by_ip-sends :
      (ip : Text) (s : List Sent)
      → (device_by_ip controller ip unifi_site s).1 ≡ s ++ get_devices unifi_site ∷ []
  unfolding device_by_ip
  device_by_ip-sends ip s = and_then-pure (devices controller unifi_site s).0 _ _ ∙ devices-sends s

  -- The one change that is sent, for the switch `d`.
  abbrev pub put_for : ℕ → Text → RawDevice → Sent
  put_for port_idx id d =
      change
        (put_overrides unifi_site (or_empty d.id) (access_overrides port_idx id d.port_overrides))

  put_access-ran :
      (port_idx : ℕ) (id : Text) (sw : Option RawDevice) (s : List Sent) {u : Unit}
      → (put_access controller port_idx id unifi_site sw s).0 ≡ ok u
      → (d : RawDevice) × (sw ≡ some d)
        × ((put_access controller port_idx id unifi_site sw s).1 ≡ s ++ put_for port_idx id d ∷ [])
  unfolding write
  put_access-ran port_idx id none s h = absurd (cc)
  put_access-ran port_idx id (some d) s h =
      (d, refl, and_then-pure (controller.change s _) (λ _. tt) (s ++ put_for port_idx id d ∷ []))

  -- The switch that a MAC address names in the devices that are asked for after `s`.
  abbrev pub IsSwitchOf : Text → List Sent → RawDevice → Type 0
  IsSwitchOf switch_mac s d =
      (found : List RawDevice) × (controller.devices s unifi_site ≡ ok found)
      × IsFirst (λ d. lower (or_empty d.mac) == lower switch_mac) found d

  -- The switch that an address names in them.
  abbrev pub IsSwitchAt : Text → List Sent → RawDevice → Type 0
  IsSwitchAt ip s d =
      (found : List RawDevice) × (controller.devices s unifi_site ≡ ok found)
      × IsFirst (λ d. str d.ip == ip) found d

  set_port_access_vlan-ran :
      (switch_mac : Text) (port_idx : ℕ) (id : Text) (s : List Sent) {u : Unit}
      → (set_port_access_vlan controller switch_mac port_idx id unifi_site s).0 ≡ ok u
      → (d : RawDevice) × IsSwitchOf switch_mac s d
        × ((set_port_access_vlan controller switch_mac port_idx id unifi_site s).1
            ≡ s ++ get_devices unifi_site ∷ put_for port_idx id d ∷ [])
  unfolding set_port_access_vlan devices
  set_port_access_vlan-ran switch_mac port_idx id s h =
      let (found, answered, h, listed) = ran (devices controller unifi_site) _ s h in
      let (d, there, put) = put_access-ran port_idx id (find (is_device switch_mac) found) _ h in
      (
        d,
        (found, answered, find-IsFirst (is_device switch_mac) found there),
        listed
            ∙ put
            ∙ ap (λ t. t ++ put_for port_idx id d ∷ []) (devices-sends s)
            ∙ append_assoc s (get_devices unifi_site ∷ []) _,
      )

  assign_to-ran :
      (port_idx : ℕ) (ip : Text) (net : Option UnifiNetwork) (sw : Option RawDevice) (s : List Sent)
      {net' : UnifiNetwork}
      → (assign_to controller port_idx unifi_site ip net sw s).0 ≡ ok net'
      → (d' : RawDevice) × (d : RawDevice) × (net ≡ some net')
        × (sw ≡ some d')
        × IsSwitchOf (str d'.mac) s d
        × ((assign_to controller port_idx unifi_site ip net sw s).1
            ≡ s ++ get_devices unifi_site ∷ put_for port_idx net'.id d ∷ [])
  assign_to-ran port_idx ip none sw s h = absurd (cc)
  assign_to-ran port_idx ip (some net) none s h = absurd (cc)
  assign_to-ran port_idx ip (some net) (some d') s h =
      let (_, set, k, same) =
        ran (set_port_access_vlan controller (str d'.mac) port_idx net.id unifi_site) _ s h in
      let (d, found, sent) = set_port_access_vlan-ran (str d'.mac) port_idx net.id s set in
      (
        d',
        d,
        ap some (ok_injective k),
        refl,
        found,
        same
            ∙ sent
            ∙ ap (λ n. s ++ get_devices unifi_site ∷ put_for port_idx n.id d ∷ []) (ok_injective k),
      )

  -- What comes after the networks: the switch is looked up by its address, and once more by its MAC
  -- address for its overrides.
  find_switch-ran :
      (port_idx : ℕ) (ip : Text) (net : Option UnifiNetwork) (s : List Sent) (net' : UnifiNetwork)
      → (find_switch controller port_idx unifi_site ip net s).0 ≡ ok net'
      → (d' : RawDevice) × (d : RawDevice) × (net ≡ some net')
        × IsSwitchAt ip s d'
        × IsSwitchOf (str d'.mac) (s ++ get_devices unifi_site ∷ []) d
        × ((find_switch controller port_idx unifi_site ip net s).1
            ≡ s
              ++ get_devices unifi_site ∷ get_devices unifi_site ∷ put_for port_idx net'.id d ∷ [])
  unfolding device_by_ip devices
  find_switch-ran port_idx ip none s net' h = absurd (cc)
  find_switch-ran port_idx ip (some net) s net' h =
      let (sw, by_ip, h, same) = ran (device_by_ip controller ip unifi_site) _ s h in
      let (found, answered, k, _) = ran (devices controller unifi_site) _ s by_ip in
      let (d', d, is_net, is_sw, is_same, sent) = assign_to-ran port_idx ip (some net) sw _ h in
      (
        d',
        d,
        is_net,
        (found, answered, find-IsFirst (λ d. str d.ip == ip) found (ok_injective k ∙ is_sw)),
        subst (λ t. IsSwitchOf (str d'.mac) t d) (device_by_ip-sends ip s) is_same,
        same
            ∙ sent
            ∙ ap (λ t. t ++ get_devices unifi_site ∷ put_for port_idx net'.id d ∷ [])
                (device_by_ip-sends ip s)
            ∙ append_assoc s (get_devices unifi_site ∷ []) _,
      )

  -- A port that was put into a VLAN got the network whose id is given: the first one in the
  -- controller's answer that has this VLAN, with VLANs enabled. The run has logged in at the console
  -- of the site, asked for the networks, and twice for the devices; of the first answer it has taken
  -- the first device with the switch's address, and of the second the first one with that one's MAC
  -- address. It has sent one change, the overrides that put the port of the latter into the network,
  -- and nothing else.
  pub assign_unifi_port_vlan-put :
      (consoles : List (Text × Text)) (site switch_ip : Text) (port_idx vlan_id : ℕ) (s : List Sent)
      (id : Text)
      → (assign_unifi_port_vlan controller consoles unifi_site site switch_ip port_idx vlan_id s).0
        ≡ ok id
      → (ip : Text) × (raws : List RawNetwork) × (raw : RawNetwork) × (d' : RawDevice)
        × (d : RawDevice) × (lookup site consoles ≡ some ip)
        × (controller.networks (s ++ login (base_url controller ip) ∷ []) unifi_site ≡ ok raws)
        × IsFirst (λ n. n.vlan == some vlan_id && n.vlan_enabled) raws raw
        × (id ≡ or_empty raw.id)
        × IsSwitchAt switch_ip
            (s ++ login (base_url controller ip) ∷ get_networks unifi_site ∷ [])
            d'
        × IsSwitchOf
            (str d'.mac)
            (s
              ++ login (base_url controller ip)
                ∷ get_networks unifi_site
                ∷ get_devices unifi_site
                ∷ [])
            d
        × ((assign_unifi_port_vlan controller consoles unifi_site site switch_ip port_idx vlan_id
              s).1
            ≡ s
              ++ login (base_url controller ip)
                ∷ get_networks unifi_site
                ∷ get_devices unifi_site
                ∷ get_devices unifi_site
                ∷ put_for port_idx id d
                ∷ [])
  unfolding assign_unifi_port_vlan parse_network
  assign_unifi_port_vlan-put consoles site switch_ip port_idx vlan_id s id h =
      let (ip, console, h, entered) = at_console-ran controller (lookup site consoles) _ s h in
      let (found, looked, h, listed) = ran (networks controller unifi_site) _ _ h in
      let (raws, answered, parsed) = networks-ran controller unifi_site _ looked in
      let (net, switch, k, same) =
        ran
          (find_switch controller port_idx unifi_site switch_ip (find (vlan_network vlan_id) found))
          _ _ h in
      let (d', d, is_net, is_sw, is_same, sent) =
        find_switch-ran port_idx switch_ip _ _ net switch in
      let (raw, made, first) =
        find-map-IsFirst parse_network (vlan_network vlan_id) raws
          (ap (find (vlan_network vlan_id)) parsed ∙ is_net) in
      let here =
        networks-sends controller unifi_site (s ++ login (base_url controller ip) ∷ [])
        ∙ append_assoc s (login (base_url controller ip) ∷ []) (get_networks unifi_site ∷ []) in
      (
        ip,
        raws,
        raw,
        d',
        d,
        console,
        answered,
        first,
        sym (ok_injective k) ∙ ap (λ n. n.id) (sym made),
        subst (λ t. IsSwitchAt switch_ip t d') here is_sw,
        subst (λ t. IsSwitchOf (str d'.mac) t d)
            (ap (λ t. t ++ get_devices unifi_site ∷ []) here
              ∙ append_assoc s _ (get_devices unifi_site ∷ []))
            is_same,
        entered
            ∙ listed
            ∙ same
            ∙ sent
            ∙ ap
                (λ t.
                  t
                  ++ get_devices unifi_site
                    ∷ get_devices unifi_site
                    ∷ put_for port_idx net.id d
                    ∷ [])
                here
            ∙ append_assoc s (login (base_url controller ip) ∷ get_networks unifi_site ∷ []) _
            ∙ ap
                (λ i.
                  s
                  ++ login (base_url controller ip)
                    ∷ get_networks unifi_site
                    ∷ get_devices unifi_site
                    ∷ get_devices unifi_site
                    ∷ put_for port_idx i d
                    ∷ [])
                (ok_injective k),
      )

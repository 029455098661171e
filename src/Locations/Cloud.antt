-- ===== src/Locations/Cloud.antt =====
-- The access points that the UniFi cloud knows (`_unifi_aps` of
-- backend/src/netbuddy/services/endpoint_location.py). A group without `devices` is one whose list
-- is empty.
use netbuddy.Base.{
  Text, text, lower, upper, starts_with, or_empty, Bool, any, keep, List, [], ◌∷◌, Option, none,
  some, list_eq, nat_eq, ◌==◌, if◌then◌else◌, not, ◌||◌,
}
use netbuddy.Base.Dict.{insert}
use netbuddy.Hosts.{is_hex}

-- What the program reads of a device in the cloud's answer.
pub record CloudDevice : Type 0 where
  pub product_line : Option Text
  pub model : Option Text
  pub type : Option Text
  pub mac : Option Text
  pub name : Option Text
  pub status : Option Text
  pub ip : Option Text
  pub ip_address : Option Text

pub record CloudGroup : Type 0 where
  pub host_id : Option Text
  pub host_name : Option Text
  pub devices : List CloudDevice

-- `re.sub(r"[^0-9a-f]", "", (value or "").lower())`
unfoldable pub norm_mac : Option Text → Text
norm_mac value = keep is_hex (lower (or_empty value))

-- `value or default`
abbrev pub or_text : Text → Option Text → Text
or_text default none = default
or_text default (some []) = default
or_text default (some (c ∷ s)) = c ∷ s

abbrev pub ap_model_prefixes : List Text
ap_model_prefixes = text "U6" ∷ text "U7" ∷ text "UAP" ∷ []

abbrev pub has_ap_model : Text → Bool
has_ap_model model = any (λ p. starts_with p (upper model)) ap_model_prefixes

pub record ApMeta : Type 0 where
  pub name : Text
  pub status : Text
  pub model : Text
  pub ip : Text

abbrev pub meta_of : CloudDevice → ApMeta
meta_of d = record {
  name = or_empty d.name;
  status = or_text (text "unknown") d.status;
  model = or_empty d.model;
  ip = or_empty d.ip;
}

-- One turn of the inner loop, with its three `continue`s.
unfoldable pub add_cloud_device : CloudDevice → List (Text × ApMeta) → List (Text × ApMeta)
unfolding norm_mac
add_cloud_device d aps =
    if not (or_empty d.product_line == text "network") || not (has_ap_model (or_empty d.model))
    then aps
    else elim (norm_mac d.mac) [ [] ↦ aps | c ∷ s ↦ insert (c ∷ s) (meta_of d) aps ]

unfoldable pub add_cloud_devices : List CloudDevice → List (Text × ApMeta) → List (Text × ApMeta)
unfolding add_cloud_device
add_cloud_devices [] aps = aps
add_cloud_devices (d ∷ devices) aps = add_cloud_devices devices (add_cloud_device d aps)

unfoldable pub add_groups : List CloudGroup → List (Text × ApMeta) → List (Text × ApMeta)
unfolding add_cloud_devices
add_groups [] aps = aps
add_groups (g ∷ groups) aps = add_groups groups (add_cloud_devices g.devices aps)

unfoldable pub unifi_aps : List CloudGroup → List (Text × ApMeta)
unfolding add_groups
unifi_aps groups = add_groups groups []

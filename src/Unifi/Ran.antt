-- ===== src/Unifi/Ran.antt =====
-- What the requests of a controller leave behind.
use netbuddy.Base.{
  Text, List, [], ◌∷◌, ◌++◌, Option, none, some, Action, Result, ok, raised, and_then, pure, ran,
  ◌≡◌, refl, map, ok_injective,
}
use netbuddy.Unifi.Raw.{RawNetwork, UnifiNetwork, parse_network}
use netbuddy.Unifi.Console.{
  Answers, Sent, call, login, get_networks, at_console, base_url, networks,
}

-- An action whose last statement only makes a value leaves the state as it is.
pub and_then-pure :
    {S A B : Type 0} (r : Result A) (g : A → B) (s : S) → (and_then r (λ a. pure (g a)) s).1 ≡ s
and_then-pure (ok a) g s = refl
and_then-pure (raised e) g s = refl

module _ (controller : Answers) where
  pub networks-sends :
      (unifi_site : Text) (s : List Sent)
      → (networks controller unifi_site s).1 ≡ s ++ get_networks unifi_site ∷ []
  unfolding networks
  networks-sends unifi_site s = and_then-pure (controller.networks s unifi_site) _ _

  pub at_console-ran :
      {A : Type 0} (console : Option Text) (body : Action (List Sent) A) (s : List Sent) {a : A}
      → (at_console controller console body s).0 ≡ ok a
      → (ip : Text) × (console ≡ some ip)
        × ((body (s ++ login (base_url controller ip) ∷ [])).0 ≡ ok a)
        × ((at_console controller console body s).1
            ≡ (body (s ++ login (base_url controller ip) ∷ [])).1)
  at_console-ran none body s h = absurd (cc)
  at_console-ran (some ip) body s h =
      let (_, _, k, same) =
        ran (call (login (base_url controller ip)) controller.login) (λ _. body) s h in
      (ip, refl, k, same)

  -- The networks that are read are those of the controller's answer.
  pub networks-ran :
      (unifi_site : Text) (s : List Sent) {found : List UnifiNetwork}
      → (networks controller unifi_site s).0 ≡ ok found
      → (raws : List RawNetwork) × (controller.networks s unifi_site ≡ ok raws)
        × (map parse_network raws ≡ found)
  unfolding networks
  networks-ran unifi_site s h =
      let (raws, answered, k, _) =
        ran (call (get_networks unifi_site) (λ sent. controller.networks sent unifi_site)) _ s h in
      (raws, answered, ok_injective k)

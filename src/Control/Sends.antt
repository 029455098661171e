-- ===== src/Control/Sends.antt =====
-- Actions that only talk to the switch: what they send, and that they leave the tables alone.
use netbuddy.Base.{
  Text, ◌≡◌, refl, sym, ◌∙◌, ap, List, [], ◌∷◌, ◌++◌, append-nil, append_assoc, Result, ok, raised,
  Action, and_then, All, All-append, ◌>>=◌, ◌⊎◌,
}
use netbuddy.Hardware.{Op, command, fetch_interfaces}
use netbuddy.Control.Bench.{Bench, on_switch}

-- From one state to another by sending operations that all have a property.
pub record Sends (P : Op → Type 0) (s s' : Bench) : Type 0 where
  pub sent : List Op
  pub ops : s'.ops ≡ s.ops ++ sent
  pub each : All P sent
  pub backups : s'.backups ≡ s.backups
  pub interfaces : s'.interfaces ≡ s.interfaces

module _ {P : Op → Type 0} where
  pub Sends-refl : (s : Bench) → Sends P s s
  Sends-refl s = record {
    sent = [];
    ops = sym (append-nil s.ops);
    each = tt;
    backups = refl;
    interfaces = refl;
  }

  pub Sends-trans : {s t u : Bench} → Sends P s t → Sends P t u → Sends P s u
  Sends-trans {s} a b = record {
    sent = a.sent ++ b.sent;
    ops = b.ops ∙ ap (λ l. l ++ b.sent) a.ops ∙ append_assoc s.ops a.sent b.sent;
    each = All-append P a.sent b.sent a.each b.each;
    backups = b.backups ∙ a.backups;
    interfaces = b.interfaces ∙ a.interfaces;
  }

  pub Sends-and_then :
      {A B : Type 0} (r : Result A) (f : A → Action Bench B) (s : Bench)
      → ((a : A) → Sends P s (f a s).1)
      → Sends P s (and_then r f s).1
  Sends-and_then (ok a) f s h = h a
  Sends-and_then (raised e) f s h = Sends-refl s

  pub Sends-bind :
      {A B : Type 0} (m : Action Bench A) (f : A → Action Bench B) (s : Bench)
      → Sends P s (m s).1
      → ((a : A) (t : Bench) → Sends P t (f a t).1)
      → Sends P s ((m >>= f) s).1
  Sends-bind m f s first then_rest =
      Sends-trans first (Sends-and_then (m s).0 f (m s).1 (λ a. then_rest a (m s).1))

  -- One call of the switch.
  pub Sends-one :
      {A : Type 0} (m : Action (List Op) A) (op : Op) (s : Bench)
      → (m s.ops).1 ≡ s.ops ++ op ∷ []
      → P op
      → Sends P s (on_switch m s).1
  Sends-one m op s e p = record {
    sent = op ∷ [];
    ops = e;
    each = (p, tt);
    backups = refl;
    interfaces = refl;
  }

-- The calls that only read.
abbrev pub IsReading : Op → Type 0
IsReading op = ((cmd : Text) × (op ≡ command cmd)) ⊎ (op ≡ fetch_interfaces)

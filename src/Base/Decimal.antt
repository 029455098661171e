-- ===== src/Base/Decimal.antt =====
-- `str(n)` of a number, and that `int` reads it back.
use Prim.Native.Nat.{ℕ, zero, suc, ◌+◌, ◌-◌, ◌*◌, ◌/◌, ◌%◌, ◌<◌}
use mathlib.Core.Path.{◌≡◌, refl, ap, ◌∙◌}
use mathlib.Core.Bool.{true}
use mathlib.Core.List.{[], ◌∷◌}
use mathlib.Core.Logic.{inl, inr}
use native.Mathlib.Omega.{arith}
use netbuddy.Base.Tests.{ltb, if◌then◌else◌, Bool-cases}
use netbuddy.Base.Lists.{all}
use netbuddy.Base.Strings.{Text, int_from, int, is_digit, isdigit}

-- The digits of `n` in front of `s`. The fuel bounds their number.
decimal_from : ℕ → ℕ → Text → Text
decimal_from zero n s = s
decimal_from (suc fuel) n s =
    let more = decimal_from fuel (n / 10) ((b'0' + n % 10) ∷ s) in
    if ltb n 10 then (b'0' + n) ∷ s else more

unfoldable pub decimal : ℕ → Text
unfolding decimal_from
decimal n = decimal_from (suc n) n []

-- Reading on from the digits of `n` is reading on from `n`.
int_from-decimal_from :
    (fuel n : ℕ) (s : Text) → n < fuel → int_from 0 (decimal_from fuel n s) ≡ int_from n s
unfolding decimal_from
int_from-decimal_from zero n s h = elim h [ ]
int_from-decimal_from (suc fuel) n s h = elim (Bool-cases (ltb n 10)) [
  | inl small ↦
      rw small (ap (λ k. int_from k s) {x = 0 * 10 + (b'0' + n - b'0')} {y = n} (omega arith))
  | inr large ↦ rw large (
      int_from-decimal_from fuel (n / 10) ((b'0' + n % 10) ∷ s) (ground arith)
      ∙ ap (λ k. int_from k s) {x = n / 10 * 10 + (b'0' + n % 10 - b'0')} {y = n} (omega arith))
]

pub int-decimal : (n : ℕ) → int (decimal n) ≡ n
unfolding decimal
int-decimal n = int_from-decimal_from (suc n) n [] (omega arith)

decimal_from-isdigit :
    (fuel n : ℕ) (s : Text)
    → n < fuel
    → all is_digit s ≡ true
    → isdigit (decimal_from fuel n s) ≡ true
unfolding decimal_from
decimal_from-isdigit zero n s h k = elim h [ ]
decimal_from-isdigit (suc fuel) n s h k = elim (Bool-cases (ltb n 10)) [
  | inl small ↦ rw small (ground (arith, k))
  | inr large ↦
      rw large (
        decimal_from-isdigit fuel (n / 10) ((b'0' + n % 10) ∷ s) (ground arith) (ground (arith, k)))
]

pub decimal-isdigit : (n : ℕ) → isdigit (decimal n) ≡ true
unfolding decimal
decimal-isdigit n = decimal_from-isdigit (suc n) n [] (omega arith) refl

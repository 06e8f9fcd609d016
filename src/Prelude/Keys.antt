-- ===== src/Prelude/Keys.antt =====
-- Types whose values the program compares by `===`: texts (identifiers) and numbers.
use Prim.Native.Nat.{ℕ}
use Prim.Native.String.{String}
use mathlib.Core.Bool.{Bool, true, false}
use mathlib.Core.Logic.{◌↔◌, ◌≢◌}
use mathlib.Core.Path.{◌≡◌, refl}
use native.Mathlib.Omega.{arith}
use text.Mathlib.Text.{◌==◌ as str_eq}
use text.Mathlib.TextEquality.{eq_iff}
use rtcforge.Prelude.Tests.{◌==◌ as nat_eq, ==_iff}

pub record Key {ℓ} (K : Type ℓ) : Type ℓ where
  pub same : K → K → Bool
  pub same_iff : (a b : K) → (same a b ≡ true) ↔ (a ≡ b)

infix 50 ◌===◌
abbrev pub ◌===◌ {ℓ} : {K : Type ℓ} ⦃k : Key K⦄ → K → K → Bool
◌===◌ ⦃k⦄ = k.same

instance abbrev pub number_key : Key ℕ
number_key = record { same = nat_eq; same_iff = ==_iff }

instance abbrev pub text_key : Key String
text_key = record { same = str_eq; same_iff = eq_iff }

module _ {ℓ} {K : Type ℓ} ⦃k : Key K⦄ where
  pub same_self : (a : K) → (a === a) ≡ true
  same_self a = (k.same_iff a a).1 refl

  pub same_of_eq : (a b : K) → a ≡ b → (a === b) ≡ true
  same_of_eq a b = (k.same_iff a b).1

  pub eq_of_same : (a b : K) → (a === b) ≡ true → a ≡ b
  eq_of_same a b = (k.same_iff a b).0

  pub ne_of_same : (a b : K) → (a === b) ≡ false → a ≢ b
  ne_of_same a b h e = ground (arith, same_of_eq a b e)

  pub same_of_ne : (a b : K) → a ≢ b → (a === b) ≡ false
  same_of_ne a b h = ground (arith, eq_of_same a b)

-- ===== src/Base/Equality.antt =====
-- Types whose values can serve as keys: a test that answers true just on equal values. The keys of
-- this program are socket numbers and texts.
use Prim.Native.Nat.{ℕ}
use mathlib.Core.Path.{◌≡◌}
use mathlib.Core.Logic.{◌↔◌}
use mathlib.Core.Bool.{Bool, true, false, ◌&&◌}
use mathlib.Core.List.{List, [], ◌∷◌}
use native.Mathlib.Omega.{arith}
use enclave_station.Base.Tests.{nat_eqb, nat_eqb_iff}

abbrev pub text_eqb : List ℕ → List ℕ → Bool
text_eqb [] [] = true
text_eqb [] (b ∷ t) = false
text_eqb (a ∷ s) [] = false
text_eqb (a ∷ s) (b ∷ t) = nat_eqb a b && text_eqb s t

pub text_eqb_iff : (s t : List ℕ) → (text_eqb s t ≡ true) ↔ (s ≡ t)
text_eqb_iff [] [] = ground arith
text_eqb_iff [] (b ∷ t) = ground arith
text_eqb_iff (a ∷ s) [] = ground arith
text_eqb_iff (a ∷ s) (b ∷ t) = ground (arith, text_eqb_iff s t)

pub record Key {ℓ} (K : Type ℓ) : Type ℓ where
  pub same : K → K → Bool
  pub same_iff : (j k : K) → (same j k ≡ true) ↔ (j ≡ k)

instance abbrev pub nat_keys : Key ℕ
nat_keys = record { same = nat_eqb; same_iff = nat_eqb_iff }

instance abbrev pub text_keys : Key (List ℕ)
text_keys = record { same = text_eqb; same_iff = text_eqb_iff }

infix 50 ◌==◌
abbrev pub ◌==◌ {ℓ} : {K : Type ℓ} ⦃key : Key K⦄ → K → K → Bool
◌==◌ ⦃key⦄ j k = key.same j k

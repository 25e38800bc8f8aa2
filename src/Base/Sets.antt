-- ===== src/Base/Sets.antt =====
-- `std::unordered_set` as a list without repetitions, in one of its iteration orders.
use Prim.Native.Nat.{ℕ, suc, ◌+◌}
use mathlib.Core.Path.{◌≡◌, refl}
use mathlib.Core.Logic.{◌≢◌}
use mathlib.Core.Bool.{Bool, true, false, ◌||◌, ◌&&◌, not}
use mathlib.Core.List.{List, [], ◌∷◌, ◌++◌}
use native.Mathlib.Omega.{arith}
use enclave_station.Base.Tests.{if◌then◌else◌}
use enclave_station.Base.Equality.{Key, ◌==◌}

module _ {ℓ} {A : Type ℓ} ⦃e : Key A⦄ where
  unfoldable pub contains : List A → A → Bool
  contains [] a = false
  contains (x ∷ xs) a = (x == a) || contains xs a

  unfoldable pub insert : List A → A → List A
  unfolding contains
  insert xs a = if contains xs a then xs else a ∷ xs

  unfoldable pub remove : List A → A → List A
  remove [] a = []
  remove (x ∷ xs) a = if x == a then remove xs a else x ∷ remove xs a

  abbrev pub Distinct : List A → Type 0
  Distinct [] = Unit
  Distinct (x ∷ xs) = (contains xs x ≡ false) × Distinct xs

  pub contains-nil : (a : A) → contains [] a ≡ false
  unfolding contains
  contains-nil a = refl

  pub contains-insert :
      (xs : List A) (a b : A) → contains (insert xs a) b ≡ ((a == b) || contains xs b)
  unfolding insert
  contains-insert xs a b = ground (arith, e.same_iff a b)

  pub contains-remove :
      (xs : List A) (a b : A) → contains (remove xs a) b ≡ (not (a == b) && contains xs b)
  unfolding contains remove
  contains-remove [] a b = ground arith
  contains-remove (x ∷ xs) a b =
      ground (arith, contains-remove xs a b, e.same_iff a b, e.same_iff x a, e.same_iff x b)

  pub contains-append :
      (xs ys : List A) (a : A) → contains (xs ++ ys) a ≡ (contains xs a || contains ys a)
  unfolding contains
  contains-append [] ys a = refl
  contains-append (x ∷ xs) ys a = ground (arith, contains-append xs ys a)

  pub insert-Distinct : (xs : List A) (a : A) → Distinct xs → Distinct (insert xs a)
  unfolding insert
  insert-Distinct xs a d = ground arith

  pub remove-Distinct : (xs : List A) (a : A) → Distinct xs → Distinct (remove xs a)
  unfolding remove
  remove-Distinct [] a d = d
  remove-Distinct (x ∷ xs) a d = ground (arith, remove-Distinct xs a d.1, contains-remove xs a x)

  pub remove-nil : (a : A) → remove [] a ≡ []
  unfolding remove
  remove-nil a = refl

  pub insert-ne-nil : (xs : List A) (a : A) → insert xs a ≢ []
  unfolding insert contains
  insert-ne-nil [] a h = ground arith
  insert-ne-nil (x ∷ xs) a h = ground arith

  pub if_Distinct :
      (b : Bool) (xs ys : List A) → Distinct xs → Distinct ys → Distinct (if b then xs else ys)
  if_Distinct true xs ys p q = p
  if_Distinct false xs ys p q = q

  -- How often an element is in a list.
  unfoldable pub times : A → List A → ℕ
  times a [] = 0
  times a (x ∷ xs) = let rest = times a xs in if x == a then suc rest else rest

  pub times-append : (a : A) (xs ys : List A) → times a (xs ++ ys) ≡ times a xs + times a ys
  unfolding times
  times-append a [] ys = ground arith
  times-append a (x ∷ xs) ys = ground (arith, times-append a xs ys)

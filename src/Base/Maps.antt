-- ===== src/Base/Maps.antt =====
-- `std::unordered_map` as an association list. `insert_at` writes or adds an entry, `erase` drops it.
use mathlib.Core.Path.{◌≡◌, refl}
use mathlib.Core.Logic.{inl, inr}
use mathlib.Core.Option.{Option, none, some}
use mathlib.Core.List.{List, [], ◌∷◌}
use native.Mathlib.Omega.{arith}
use enclave_station.Base.Tests.{if◌then◌else◌, Bool-cases}
use enclave_station.Base.Equality.{Key, ◌==◌}

module _ {ℓ} {K : Type 0} {V : Type ℓ} ⦃e : Key K⦄ where
  -- `m.find(k)`
  unfoldable pub lookup : K → List (K × V) → Option V
  lookup k [] = none
  lookup k ((head, old) ∷ rest) = if head == k then some old else lookup k rest

  -- `m.erase(k)`
  unfoldable pub erase : K → List (K × V) → List (K × V)
  erase k [] = []
  erase k ((head, old) ∷ rest) =
      let below = erase k rest in if head == k then below else (head, old) ∷ below

  -- `m[k] = v`
  unfoldable pub insert_at : K → V → List (K × V) → List (K × V)
  insert_at k v [] = (k, v) ∷ []
  insert_at k v ((head, old) ∷ rest) =
      let below = insert_at k v rest in if head == k then (k, v) ∷ rest else (head, old) ∷ below

  pub lookup-erase :
      (k j : K) (m : List (K × V)) → lookup j (erase k m) ≡ (if k == j then none else lookup j m)
  unfolding lookup erase
  lookup-erase k j [] = ground arith
  lookup-erase k j ((head, old) ∷ rest) =
      ground (arith, lookup-erase k j rest, e.same_iff head j, e.same_iff head k, e.same_iff k j)

  pub lookup-insert_at :
      (k j : K) (v : V) (m : List (K × V))
      → lookup j (insert_at k v m) ≡ (if k == j then some v else lookup j m)
  unfolding lookup insert_at
  lookup-insert_at k j v [] = ground arith
  lookup-insert_at k j v ((head, old) ∷ rest) =
      ground
        (arith, lookup-insert_at k j v rest, e.same_iff head j, e.same_iff head k, e.same_iff k j)

  -- As in a `std::unordered_map`, no key has two entries.
  abbrev pub UniqueKeys : List (K × V) → Type ℓ
  UniqueKeys [] = Unit
  UniqueKeys ((k, v) ∷ m) = (lookup k m ≡ none) × UniqueKeys m

  pub insert_at-UniqueKeys :
      (k : K) (v : V) (m : List (K × V)) → UniqueKeys m → UniqueKeys (insert_at k v m)
  unfolding insert_at lookup
  insert_at-UniqueKeys k v [] q = (refl, tt)
  insert_at-UniqueKeys k v ((j, w) ∷ m) q = elim (Bool-cases (j == k)) [
    | inl hit ↦ rw hit (rw ((e.same_iff j k).0 hit) at q.0, q.1)
    | inr miss ↦ rw miss (
      ground (arith, lookup-insert_at k j v m, e.same_iff k j, e.same_iff j k, q.0),
      insert_at-UniqueKeys k v m q.1,
    )
  ]

  pub erase-UniqueKeys : (k : K) (m : List (K × V)) → UniqueKeys m → UniqueKeys (erase k m)
  unfolding erase
  erase-UniqueKeys k [] q = q
  erase-UniqueKeys k ((j, w) ∷ m) q = elim (Bool-cases (j == k)) [
    | inl hit ↦ rw hit (erase-UniqueKeys k m q.1)
    | inr miss ↦ rw miss (ground (arith, lookup-erase k j m, q.0), erase-UniqueKeys k m q.1)
  ]

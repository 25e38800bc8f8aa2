-- ===== src/Base/Multimaps.antt =====
-- A map from keys to sets that drops a key with its last member, as the server keeps its indexes.
use mathlib.Core.Path.{◌≡◌}
use mathlib.Core.Logic.{◌≢◌, inl, inr}
use mathlib.Core.Option.{Option, none, some}
use mathlib.Core.List.{List, [], ◌∷◌}
use native.Mathlib.Omega.{arith}
use enclave_station.Base.Tests.{if◌then◌else◌, Option-cases}
use enclave_station.Base.Equality.{Key, ◌==◌}
use enclave_station.Base.Sets.{
  insert, remove, Distinct, remove-nil, insert-ne-nil, insert-Distinct, remove-Distinct,
  if_Distinct,
}
use enclave_station.Base.Maps.{
  lookup, insert_at, erase, UniqueKeys, lookup-insert_at, lookup-erase, insert_at-UniqueKeys,
  erase-UniqueKeys,
}

module _ {ℓ} {V : Type ℓ} where
  abbrev pub elements : Option (List V) → List V
  elements none = []
  elements (some vs) = vs

module _ {K V : Type 0} ⦃e : Key K⦄ ⦃d : Key V⦄ where
  -- The set under a key, empty where the key is missing.
  abbrev pub members : K → List (K × List V) → List V
  members k m = elements (lookup k m)

  -- `m[k].insert(v)`
  unfoldable pub add_member : K → V → List (K × List V) → List (K × List V)
  add_member k v m = insert_at k (insert (members k m) v) m

  put_or_erase : K → List V → List (K × List V) → List (K × List V)
  put_or_erase k [] m = erase k m
  put_or_erase k (v ∷ vs) m = insert_at k (v ∷ vs) m

  -- `it = m.find(k)`, then `it->second.erase(v)`, and `m.erase(it)` if that was the last one.
  unfoldable pub drop_member : K → V → List (K × List V) → List (K × List V)
  unfolding put_or_erase
  drop_member k v m = elim (lookup k m) [ none ↦ m | some vs ↦ put_or_erase k (remove vs v) m ]

  pub members-add_member :
      (k j : K) (v : V) (m : List (K × List V))
      → members j (add_member k v m) ≡ (if k == j then insert (members k m) v else members j m)
  unfolding add_member
  members-add_member k j v m = ground (arith, lookup-insert_at k j (insert (members k m) v) m)

  members-put_or_erase :
      (k j : K) (vs : List V) (m : List (K × List V))
      → members j (put_or_erase k vs m) ≡ (if k == j then vs else members j m)
  unfolding put_or_erase
  members-put_or_erase k j [] m = ground (arith, lookup-erase k j m)
  members-put_or_erase k j (v ∷ vs) m = ground (arith, lookup-insert_at k j (v ∷ vs) m)

  pub members-drop_member :
      (k j : K) (v : V) (m : List (K × List V))
      → members j (drop_member k v m) ≡ (if k == j then remove (members k m) v else members j m)
  unfolding drop_member
  members-drop_member k j v m = elim (Option-cases (lookup k m)) [
    | inl gone ↦ ground (arith, e.same_iff k j, remove-nil v)
    | inr (vs, found) ↦ ground (arith, members-put_or_erase k j (remove vs v) m)
  ]

  -- No key is kept with an empty set.
  abbrev pub NoEmpty : List (K × List V) → Type 0
  NoEmpty m = (k : K) → lookup k m ≢ some []

  pub add_member-NoEmpty :
      (k : K) (v : V) (m : List (K × List V)) → NoEmpty m → NoEmpty (add_member k v m)
  unfolding add_member
  add_member-NoEmpty k v m full j = ground (
    arith,
    full j,
    insert-ne-nil (members k m) v,
    lookup-insert_at k j (insert (members k m) v) m,
  )

  put_or_erase-NoEmpty :
      (k : K) (vs : List V) (m : List (K × List V)) → NoEmpty m → NoEmpty (put_or_erase k vs m)
  unfolding put_or_erase
  put_or_erase-NoEmpty k [] m full j = ground (arith, full j, lookup-erase k j m)
  put_or_erase-NoEmpty k (v ∷ vs) m full j = ground (arith, full j, lookup-insert_at k j (v ∷ vs) m)

  pub drop_member-NoEmpty :
      (k : K) (v : V) (m : List (K × List V)) → NoEmpty m → NoEmpty (drop_member k v m)
  unfolding drop_member
  drop_member-NoEmpty k v m full = elim (Option-cases (lookup k m)) [
    | inl gone ↦ rw (gone, drop_member) full
    | inr (vs, found) ↦ rw (found, drop_member) (put_or_erase-NoEmpty k (remove vs v) m full)
  ]

  -- Every set is one without repetitions.
  abbrev pub AllDistinct : List (K × List V) → Type 0
  AllDistinct m = (k : K) → Distinct (members k m)

  pub add_member-AllDistinct :
      (k : K) (v : V) (m : List (K × List V)) → AllDistinct m → AllDistinct (add_member k v m)
  add_member-AllDistinct k v m dist j =
      rw (members-add_member k j v m)
        (if_Distinct (k == j) _ _ (insert-Distinct (members k m) v (dist k)) (dist j))

  pub drop_member-AllDistinct :
      (k : K) (v : V) (m : List (K × List V)) → AllDistinct m → AllDistinct (drop_member k v m)
  drop_member-AllDistinct k v m dist j =
      rw (members-drop_member k j v m)
        (if_Distinct (k == j) _ _ (remove-Distinct (members k m) v (dist k)) (dist j))

  pub add_member-UniqueKeys :
      (k : K) (v : V) (m : List (K × List V)) → UniqueKeys m → UniqueKeys (add_member k v m)
  unfolding add_member
  add_member-UniqueKeys k v m q = insert_at-UniqueKeys k (insert (members k m) v) m q

  put_or_erase-UniqueKeys :
      (k : K) (vs : List V) (m : List (K × List V))
      → UniqueKeys m
      → UniqueKeys (put_or_erase k vs m)
  unfolding put_or_erase
  put_or_erase-UniqueKeys k [] m q = erase-UniqueKeys k m q
  put_or_erase-UniqueKeys k (v ∷ vs) m q = insert_at-UniqueKeys k (v ∷ vs) m q

  pub drop_member-UniqueKeys :
      (k : K) (v : V) (m : List (K × List V)) → UniqueKeys m → UniqueKeys (drop_member k v m)
  unfolding drop_member
  drop_member-UniqueKeys k v m q = elim (Option-cases (lookup k m)) [
    | inl gone ↦ rw (gone, drop_member) q
    | inr (vs, found) ↦ rw (found, drop_member) (put_or_erase-UniqueKeys k (remove vs v) m q)
  ]

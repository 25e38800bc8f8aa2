-- ===== src/Pools/Connections/Capacity.antt =====
-- Which connections backend/src/db/connection_pool.cpp has, and how many.
use enclave_station.Base.{
  ℕ, zero, suc, ◌≡◌, ◌≤◌, ◌+◌, ◌-◌, refl, ap, subst, List, [], ◌∷◌, if◌then◌else◌, ◌==◌, nat_keys,
  nat_eqb_iff, leb, length, length-append, Option, none, some, arith, times, times-append,
}
use enclave_station.Pools.Connections.{
  Pool, moved_out, fresh_from, connection_pool, take_front, front_of, open_connection, replaced,
  second_attempt, both_failed, check, still_open, renewed, gone, release, available, size_in_use,
  Step, taken, checked, released, Reach, here, next,
}

times-moved_out :
    (c d : ℕ) (xs : List ℕ) (k : ℕ)
    → times c xs ≡ suc k
    → times d xs ≡ times d (moved_out c xs) + (if c == d then 1 else 0)
unfolding times moved_out
times-moved_out c d [] k h = ground arith
times-moved_out c d (x ∷ xs) k h =
    ground (arith, times-moved_out c d xs k, nat_eqb_iff x c, nat_eqb_iff x d, nat_eqb_iff c d)

length-moved_out :
    (c : ℕ) (xs : List ℕ) (k : ℕ) → times c xs ≡ suc k → length xs ≡ suc (length (moved_out c xs))
unfolding times moved_out
length-moved_out c [] k h = ground arith
length-moved_out c (x ∷ xs) k h = ground (arith, length-moved_out c xs k)

-- The places where a connection is.
unfoldable pub places : Pool → ℕ → ℕ
places p c = times c p.connections + times c p.checking + times c p.held

-- The connections that the pool has, wherever they are.
unfoldable pub capacity : Pool → ℕ
capacity p = length p.connections + length p.checking + length p.held

pub record IsSound (p : Pool) : Type 0 where
  pub unique : (c : ℕ) → places p c ≤ 1
  pub unused : (c : ℕ) → p.next ≤ c → places p c ≡ 0
  pub bounded : capacity p ≤ p.pool_size

times-fresh_from :
    (c n k : ℕ)
    → times c (fresh_from n k) ≡ (if leb n c then (if leb (n + k) c then 0 else 1) else 0)
unfolding times fresh_from
times-fresh_from c n zero = ground arith
times-fresh_from c n (suc k) = ground (arith, times-fresh_from c (suc n) k, nat_eqb_iff n c)

length-fresh_from : (n k : ℕ) → length (fresh_from n k) ≡ k
unfolding fresh_from
length-fresh_from n zero = refl
length-fresh_from n (suc k) = ap suc (length-fresh_from (suc n) k)

connection_pool-IsSound : (size : ℕ) → IsSound (connection_pool size)
unfolding connection_pool places capacity times
connection_pool-IsSound size = record {
  unique = λ c. ground (arith, times-fresh_from c 0 size);
  unused = λ c h. ground (arith, times-fresh_from c 0 size);
  bounded = ground (arith, length-fresh_from 0 size);
}

-- What a connection that is taken from the queue leaves as it was.
abbrev SamePlaces : Pool → ℕ → Option (ℕ × Pool) → Type 0
SamePlaces p d none = Unit
SamePlaces p d (some (c, q)) =
    (places q d ≡ places p d)
    × (q.next ≡ p.next)
    × (capacity q ≡ capacity p)
    × (q.pool_size ≡ p.pool_size)

front_of-SamePlaces :
    (p : Pool) (cs : List ℕ) (d : ℕ) → p.connections ≡ cs → SamePlaces p d (front_of p cs)
unfolding places times capacity
front_of-SamePlaces p [] d h = tt
front_of-SamePlaces p (c ∷ rest) d h =
    (ground (arith, ap (times d) h), refl, ground (arith, ap length h), refl)

taken-SamePlaces :
    (p : Pool) (c : ℕ) (q : Pool) (d : ℕ)
    → take_front p ≡ some (c, q)
    → SamePlaces p d (some (c, q))
unfolding take_front
taken-SamePlaces p c q d e = subst (SamePlaces p d) e (front_of-SamePlaces p p.connections d refl)

Step-places :
    {p q : Pool} → Step p q → IsSound p → (d : ℕ) → (places q d ≤ 1) × (q.next ≤ d → places q d ≡ 0)
unfolding places check release times
Step-places {p} (taken c rest e) s d =
    ground (arith, taken-SamePlaces p c rest d e, s.unique d, s.unused d)
Step-places {p} (checked c open_connection k h) s d =
    ground (arith, s.unique d, s.unused d, times-moved_out c d p.checking k)
Step-places {p} (checked c replaced k h) s d =
    ground (arith, s.unique d, s.unused d, times-moved_out c d p.checking k, nat_eqb_iff p.next d)
Step-places {p} (checked c second_attempt k h) s d = ground (
  arith,
  s.unique d,
  s.unused d,
  times-moved_out c d p.checking k,
  times-append d p.connections (p.next ∷ []),
  nat_eqb_iff p.next d,
)
Step-places {p} (checked c both_failed k h) s d =
    ground (arith, s.unique d, s.unused d, times-moved_out c d p.checking k)
Step-places {p} (released c still_open k h) s d = ground (
  arith,
  s.unique d,
  s.unused d,
  times-moved_out c d p.held k,
  times-append d p.connections (c ∷ []),
)
Step-places {p} (released c renewed k h) s d = ground (
  arith,
  s.unique d,
  s.unused d,
  times-moved_out c d p.held k,
  times-append d p.connections (p.next ∷ []),
  nat_eqb_iff p.next d,
)
Step-places {p} (released c gone k h) s d =
    ground (arith, s.unique d, s.unused d, times-moved_out c d p.held k)

-- No step adds a connection: one that is lost is not made up for.
Step-capacity : {p q : Pool} → Step p q → (capacity q ≤ capacity p) × (q.pool_size ≡ p.pool_size)
unfolding capacity check release
Step-capacity {p} (taken c rest e) =
    let same = taken-SamePlaces p c rest 0 e in (ground (arith, same.2), same.3)
Step-capacity {p} (checked c open_connection k h) =
    (ground (arith, length-moved_out c p.checking k), refl)
Step-capacity {p} (checked c replaced k h) = (ground (arith, length-moved_out c p.checking k), refl)
Step-capacity {p} (checked c second_attempt k h) = (
  ground (arith, length-moved_out c p.checking k, length-append p.connections (p.next ∷ [])),
  refl,
)
Step-capacity {p} (checked c both_failed k h) =
    (ground (arith, length-moved_out c p.checking k), refl)
Step-capacity {p} (released c still_open k h) =
    (ground (arith, length-moved_out c p.held k, length-append p.connections (c ∷ [])), refl)
Step-capacity {p} (released c renewed k h) =
    (ground (arith, length-moved_out c p.held k, length-append p.connections (p.next ∷ [])), refl)
Step-capacity {p} (released c gone k h) = (ground (arith, length-moved_out c p.held k), refl)

Step-IsSound : {p q : Pool} → Step p q → IsSound p → IsSound q
Step-IsSound {p} {q} step s =
    let (less, same) = Step-capacity step in
    record {
      unique = λ d. (Step-places step s d).0;
      unused = λ d. (Step-places step s d).1;
      bounded = ground (arith, s.bounded, less, same);
    }

-- In every state that a pool reaches from its construction, by any interleaving of the critical
-- sections of any number of callers and whatever the connections do, no connection is twice in the
-- queue, under test or with the holders of guards, and these are together at most `pool_size`.
pub Reach-IsSound : (size : ℕ) {p : Pool} → Reach (connection_pool size) p → IsSound p
Reach-IsSound size here = connection_pool-IsSound size
Reach-IsSound size (next r step) = Step-IsSound step (Reach-IsSound size r)

Reach-shrinks : {p q : Pool} → Reach p q → capacity q ≤ capacity p
Reach-shrinks here = ground arith
Reach-shrinks (next r step) = ground (arith, Reach-shrinks r, (Step-capacity step).0)

-- A pool never gets back a connection that it has lost because no replacement could be made: it never
-- has more connections than it had in an earlier state, and so at most that many are available. One
-- that has lost all of them has none available ever after.
pub Reach-capacity :
    {p q : Pool} → Reach p q → (capacity q ≤ capacity p) × (available q ≤ capacity p)
unfolding available capacity
Reach-capacity r = (Reach-shrinks r, ground (arith, Reach-shrinks r))

-- The number of connections in use that is reported counts those that the callers have and those that
-- the pool has lost.
pub size_in_use-counts_lost :
    (size : ℕ) {p : Pool}
    → Reach (connection_pool size) p
    → (capacity p ≤ p.pool_size)
      × (size_in_use p ≡ length p.held + length p.checking + (p.pool_size - capacity p))
unfolding size_in_use capacity
size_in_use-counts_lost size {p} r =
    let bounded = (Reach-IsSound size r).bounded in (bounded, ground (arith, bounded))

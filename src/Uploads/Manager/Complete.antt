-- ===== src/Uploads/Manager/Complete.antt =====
-- The chunk numbers that `record_upload_chunk` of backend/src/db/database.cpp collects: distinct
-- numbers below a bound, as many as the bound, are all of them.
use enclave_station.Base.{
  ℕ, zero, suc, ◌+◌, ◌≡◌, ◌≤◌, ◌<◌, refl, ap, true, false, ◌||◌, List, [], ◌∷◌, ◌++◌, if◌then◌else◌,
  ◌==◌, nat_keys, nat_eqb_iff, length, contains, contains-append, contains-remove, remove,
  remove-Distinct, Distinct, arith, inl, inr, Bool-cases,
}

-- The numbers of a list are below a bound.
abbrev pub Below : ℕ → List ℕ → Type 0
Below n xs = (a : ℕ) → contains xs a ≡ true → a < n

remove_absent : (xs : List ℕ) (a : ℕ) → contains xs a ≡ false → length (remove xs a) ≡ length xs
unfolding contains remove
remove_absent [] a h = refl
remove_absent (x ∷ xs) a h = ground (arith, remove_absent xs a, h)

length-remove :
    (xs : List ℕ) (a : ℕ)
    → Distinct xs
    → length xs ≡ length (remove xs a) + (if contains xs a then 1 else 0)
unfolding contains remove
length-remove [] a d = ground arith
length-remove (x ∷ xs) a d =
    ground (arith, length-remove xs a d.1, remove_absent xs a, nat_eqb_iff x a, d.0)

remove-Below : (n : ℕ) (xs : List ℕ) → Below (suc n) xs → Below n (remove xs n)
remove-Below n xs below a h = ground (arith, h, contains-remove xs n a, below a, nat_eqb_iff n a)

length-Below : (n : ℕ) (xs : List ℕ) → Distinct xs → Below n xs → length xs ≤ n
unfolding contains
length-Below zero [] d below = omega arith
length-Below zero (x ∷ xs) d below = ground (arith, below x, nat_eqb_iff x x)
length-Below (suc n) xs d below = ground (
  arith,
  length-remove xs n d,
  length-Below n (remove xs n) (remove-Distinct xs n d) (remove-Below n xs below),
)

still-Below : (n : ℕ) (xs : List ℕ) → contains xs n ≡ false → Below (suc n) xs → Below n xs
still-Below n xs h below a in_xs =
    ground (arith, below a in_xs, h, in_xs, ap (contains xs) {x = a} {y = n})

pub all_received :
    (n : ℕ) (xs : List ℕ) (i : ℕ)
    → Distinct xs
    → Below n xs
    → length xs ≡ n
    → i < n
    → contains xs i ≡ true
all_received zero xs i d below full less = ground (arith, less)
all_received (suc n) xs i d below full less = elim (Bool-cases (contains xs n)) [
  | inr absent ↦ ground (arith, full, length-Below n xs d (still-Below n xs absent below))
  | inl present ↦ elim (Bool-cases (n == i)) [
    | inl last ↦ ground (arith, present, ap (contains xs) ((nat_eqb_iff n i).0 last))
    | inr earlier ↦ ground (
      arith,
      contains-remove xs n i,
      all_received n (remove xs n) i (remove-Distinct xs n d) (remove-Below n xs below)
          (ground (arith, length-remove xs n d, full, present))
          (ground (arith, less, earlier, nat_eqb_iff n i)),
    )
  ]
]

-- A number that is appended to those it is not among.
pub append-Distinct :
    (xs : List ℕ) (a : ℕ) → Distinct xs → contains xs a ≡ false → Distinct (xs ++ a ∷ [])
unfolding contains
append-Distinct [] a d h = (refl, tt)
append-Distinct (x ∷ xs) a d h = (
  ground (arith, contains-append xs (a ∷ []) x, d.0, h, nat_eqb_iff x a, nat_eqb_iff a x),
  append-Distinct xs a d.1 (ground (arith, h)),
)

-- What is collected after one more chunk.
abbrev pub collected : ℕ → List ℕ → List ℕ
collected index xs = if contains xs index then xs else xs ++ index ∷ []

pub collected-Distinct : (index : ℕ) (xs : List ℕ) → Distinct xs → Distinct (collected index xs)
collected-Distinct index xs d = elim (Bool-cases (contains xs index)) [
  | inl there ↦ rw there d
  | inr new ↦ rw new (append-Distinct xs index d new)
]

pub contains-collected :
    (index : ℕ) (xs : List ℕ) (a : ℕ)
    → contains (collected index xs) a ≡ ((index == a) || contains xs a)
unfolding contains
contains-collected index xs a = ground (
  arith,
  contains-append xs (index ∷ []) a,
  nat_eqb_iff index a,
  ap (contains xs) {x = index} {y = a},
)

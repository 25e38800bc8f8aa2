-- ===== src/Uploads/Bytes.antt =====
-- The bytes of the temporary file of backend/src/storage/local_fs_backend.cpp after a write, and the
-- chunks of a file.
use enclave_station.Base.{
  ℕ, zero, suc, ◌+◌, ◌*◌, ◌-◌, ◌≡◌, ◌≤◌, ◌<◌, refl, ap, sym, ◌∙◌, true, ◌||◌, none, some, List, [],
  ◌∷◌, take, drop, length, length-take, length-drop, get_elem?, if◌then◌else◌, ltb, leb, max, min,
  arith, inl, inr, Bool-cases,
}
use enclave_station.Uploads.LocalFs.{overlay, written_at, splice}

pub get-beyond : (xs : List ℕ) (k : ℕ) → length xs ≤ k → get_elem? xs k ≡ none
get-beyond [] k h = refl
get-beyond (x ∷ xs) zero h = ground (arith, h)
get-beyond (x ∷ xs) (suc k) h = get-beyond xs k (ground (arith, h))

get-overlay :
    (old new : List ℕ) (k : ℕ)
    → get_elem? (overlay old new) k
      ≡ (if ltb k (length new) then get_elem? new k else get_elem? old k)
unfolding overlay
get-overlay old [] k = ground arith
get-overlay [] (b ∷ new) k = ground (arith, get-beyond (b ∷ new) k)
get-overlay (x ∷ old) (b ∷ new) zero = ground arith
get-overlay (x ∷ old) (b ∷ new) (suc k) = ground (arith, get-overlay old new k)

length-overlay : (old new : List ℕ) → length (overlay old new) ≡ max (length old) (length new)
unfolding overlay
length-overlay old [] = omega arith
length-overlay [] (b ∷ new) = omega arith
length-overlay (x ∷ old) (b ∷ new) = omega (arith, length-overlay old new)

pub get-take :
    (n k : ℕ) (xs : List ℕ) → get_elem? (take n xs) k ≡ (if ltb k n then get_elem? xs k else none)
get-take zero k xs = ground arith
get-take (suc n) k [] = ground arith
get-take (suc n) zero (x ∷ xs) = ground arith
get-take (suc n) (suc k) (x ∷ xs) = ground (arith, get-take n k xs)

-- The index into the rest is given by an equation.
pub get-drop : (n k m : ℕ) (xs : List ℕ) → m ≡ n + k → get_elem? (drop n xs) k ≡ get_elem? xs m
get-drop zero k m xs e = ap (get_elem? xs) (omega (arith, e))
get-drop (suc n) k m [] e = refl
get-drop (suc n) k zero (x ∷ xs) e = ground (arith, e)
get-drop (suc n) k (suc m) (x ∷ xs) e = get-drop n k m xs (omega (arith, e))

-- What a write of at least one byte leaves of the file: a byte outside, a byte inside, the length.
written_at-outside :
    (off : ℕ) (old new : List ℕ) (k v : ℕ)
    → get_elem? old k ≡ some v
    → (ltb k off || leb (off + length new) k) ≡ true
    → get_elem? (written_at off old new) k ≡ some v
unfolding written_at
written_at-outside zero old new k v h out = ground (arith, get-overlay old new k, h, out)
written_at-outside (suc off) [] new k v h out = ground (arith, h)
written_at-outside (suc off) (x ∷ old) new zero v h out = h
written_at-outside (suc off) (x ∷ old) new (suc k) v h out =
    written_at-outside off old new k v h (ground (arith, out))

written_at-inside :
    (off : ℕ) (old new : List ℕ) (j k : ℕ)
    → k ≡ off + j
    → j < length new
    → get_elem? (written_at off old new) k ≡ get_elem? new j
unfolding written_at
written_at-inside zero old new j k e less =
    get-overlay old new k ∙ ground (arith, e, less, ap (get_elem? new) e)
written_at-inside (suc off) old new j zero e less = ground (arith, e)
written_at-inside (suc off) [] new j (suc k) e less =
    written_at-inside off [] new j k (omega (arith, e)) less
written_at-inside (suc off) (x ∷ old) new j (suc k) e less =
    written_at-inside off old new j k (omega (arith, e)) less

length-written_at :
    (off : ℕ) (old new : List ℕ)
    → length (written_at off old new) ≤ max (length old) (off + length new)
unfolding written_at
length-written_at zero old new = omega (arith, length-overlay old new)
length-written_at (suc off) [] new = omega (arith, length-written_at off [] new)
length-written_at (suc off) (x ∷ old) new = omega (arith, length-written_at off old new)

-- The file agrees with `whole` at an index of `whole`.
abbrev pub Agrees : List ℕ → List ℕ → ℕ → Type 0
Agrees whole bytes k = get_elem? bytes k ≡ get_elem? whole k

-- The bytes to be written are those of `whole` from the offset on.
abbrev pub IsPiece : List ℕ → ℕ → List ℕ → Type 0
IsPiece whole off new =
    (j m : ℕ) → m ≡ off + j → j < length new → get_elem? new j ≡ get_elem? whole m

get-below : (xs : List ℕ) (k : ℕ) → k < length xs → (v : ℕ) × (get_elem? xs k ≡ some v)
get-below [] k less = ground (arith, less)
get-below (x ∷ xs) zero less = (x, refl)
get-below (x ∷ xs) (suc k) less = get-below xs k (ground (arith, less))

-- Where the write goes, the file agrees with `whole` afterwards.
pub splice-inside :
    (whole bytes new : List ℕ) (off k : ℕ)
    → IsPiece whole off new
    → off ≤ k
    → k < off + length new
    → Agrees whole (splice bytes off new) k
unfolding splice
splice-inside whole bytes [] off k piece low high = ground (arith, low, high)
splice-inside whole bytes (b ∷ new) off k piece low high =
    let e : k ≡ off + (k - off) = omega (arith, low) in
    written_at-inside off bytes (b ∷ new) (k - off) k e (omega (arith, low, high))
    ∙ piece (k - off) k e (omega (arith, low, high))

splice-outside :
    (bytes new : List ℕ) (off k v : ℕ)
    → get_elem? bytes k ≡ some v
    → (ltb k off || leb (off + length new) k) ≡ true
    → get_elem? (splice bytes off new) k ≡ some v
unfolding splice
splice-outside bytes [] off k v h out = h
splice-outside bytes (b ∷ new) off k v h out = written_at-outside off bytes (b ∷ new) k v h out

-- A write of a piece of `whole` keeps what agrees with `whole`.
pub splice-Agrees :
    (whole bytes new : List ℕ) (off k : ℕ)
    → IsPiece whole off new
    → k < length whole
    → Agrees whole bytes k
    → Agrees whole (splice bytes off new) k
splice-Agrees whole bytes new off k piece less same =
    elim (Bool-cases (ltb k off || leb (off + length new) k)) [
      | inr inside ↦
          splice-inside whole bytes new off k piece (ground (arith, inside))
            (ground (arith, inside))
      | inl outside ↦
          let (v, at_k) = get-below whole k less in
          splice-outside bytes new off k v (same ∙ at_k) outside ∙ sym at_k
    ]

pub length-splice :
    (n : ℕ) (bytes new : List ℕ) (off : ℕ)
    → length bytes ≤ n
    → (if leb (length new) 0 then 0 else off + length new) ≤ n
    → length (splice bytes off new) ≤ n
unfolding splice
length-splice n bytes [] off short fits = short
length-splice n bytes (b ∷ new) off short fits =
    ground (arith, short, fits, length-written_at off bytes (b ∷ new))

-- Lists with the same elements at the same places.
pub same_bytes :
    (xs ys : List ℕ) → length xs ≤ length ys → ((k : ℕ) → k < length ys → Agrees ys xs k) → xs ≡ ys
same_bytes [] [] short agree = refl
same_bytes [] (y ∷ ys) short agree = ground (arith, agree 0 (omega arith))
same_bytes (x ∷ xs) [] short agree = ground (arith, short)
same_bytes (x ∷ xs) (y ∷ ys) short agree = ground (
  arith,
  agree 0 (omega arith),
  same_bytes xs ys (omega (arith, short)) (λ k less. agree (suc k) (omega (arith, less))),
)

-- A chunk of a file, and what was written of it.
abbrev pub slice : List ℕ → (size index : ℕ) → List ℕ
slice whole size index = take size (drop (index * size) whole)

pub slice-IsPiece :
    (whole : List ℕ) (size index n : ℕ)
    → IsPiece whole (index * size) (take n (slice whole size index))
slice-IsPiece whole size index n j m e less = ground (
  arith,
  less,
  get-take n j (slice whole size index),
  get-take size j (drop (index * size) whole),
  get-drop (index * size) j m whole e,
  length-take n (slice whole size index),
  length-take size (drop (index * size) whole),
)

pub length-slice :
    (whole : List ℕ) (size index : ℕ)
    → length (slice whole size index) ≡ min size (length whole - index * size)
length-slice whole size index =
    ground (arith, length-take size (drop (index * size) whole), length-drop (index * size) whole)

pub slice_fits :
    (whole : List ℕ) (size index n : ℕ)
    → let new = take n (slice whole size index) in
      (if leb (length new) 0 then 0 else index * size + length new) ≤ length whole
slice_fits whole size index n =
    ground (arith, length-take n (slice whole size index), length-slice whole size index)

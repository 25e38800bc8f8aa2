-- ===== src/Auth/Cbor/Bounds.antt =====
-- The bytes that the readers of `CborReader` in backend/src/auth/webauthn.cpp leave, and the fuel of `skip`.
use enclave_station.Base.{
  ℕ, zero, suc, ◌/◌, ◌%◌, ◌≤◌, ◌<◌, ◌≡◌, refl, inl, inr, ◌||◌, Option, none, some, [], ◌∷◌, ◌==◌,
  nat_keys, ltb, leb, length, length-drop, if_both, subst, Text, arith, Option-cases, Bool-cases,
}
use enclave_station.Auth.Cbor.{
  and_then, read_u8, read_bytes, number_from, read_number, read_additional, read_head, items_in,
  skip_items,
}

-- A reader that succeeds leaves at most so many bytes.
abbrev AtMost : {A : Type 0} → ℕ → Option (A × Text) → Type 0
AtMost n none = Unit {0}
AtMost n (some (a, rest)) = length rest ≤ n

and_then-AtMost :
    {A B : Type 0} (m n : ℕ) (o : Option (A × Text)) (f : A × Text → Option (B × Text))
    → AtMost m o
    → ((a : A) (rest : Text) → length rest ≤ m → AtMost n (f (a, rest)))
    → AtMost n (and_then o f)
and_then-AtMost m n none f h k = tt
and_then-AtMost m n (some (a, rest)) f h k = k a rest h

read_bytes-AtMost : (n : ℕ) (s : Text) → AtMost (length s) (read_bytes n s)
unfolding read_bytes
read_bytes-AtMost n s = elim (Bool-cases (leb n (length s))) [
  | inl fits ↦ rw (read_bytes, fits) (omega (arith, length-drop n s))
  | inr short ↦ rw (read_bytes, short) tt
]

read_number-AtMost : (n : ℕ) (s : Text) → AtMost (length s) (read_number n s)
read_number-AtMost n s =
    and_then-AtMost (length s) (length s) (read_bytes n s) (λ r. some (number_from 0 r.0, r.1))
      (read_bytes-AtMost n s) (λ a rest h. h)

read_u8-AtMost : (s : Text) → AtMost (length s) (read_u8 s)
unfolding read_u8
read_u8-AtMost [] = tt
read_u8-AtMost (c ∷ s) = omega arith

read_additional-AtMost : (a : ℕ) (s : Text) → AtMost (length s) (read_additional a s)
unfolding read_additional
read_additional-AtMost a s =
    let P : Option (ℕ × Text) → Type 0 = AtMost (length s) in
    if_both P (ltb a 24) _ _ (omega arith) (
      if_both P (a == 24) _ _ (read_u8-AtMost s) (
        if_both P (a == 25) _ _ (read_number-AtMost 2 s)
          (if_both P (a == 26) _ _ (read_number-AtMost 4 s) tt)))

items_in-AtMost : (major v : ℕ) (s : Text) → AtMost (length s) (items_in (major, (v, s)))
unfolding items_in
items_in-AtMost major v s =
    let P : Option (ℕ × Text) → Type 0 = AtMost (length s) in
    if_both P (leb major 1 || (major == 7)) _ _ (omega arith) (
      if_both P (leb major 3) _ _
        (and_then-AtMost (length s) (length s) (read_bytes v s) (λ r. some (0, r.1))
          (read_bytes-AtMost v s) (λ a rest h. h))
        (if_both P (major == 4) _ _ (omega arith) (if_both P (major == 5) _ _ (omega arith) tt)))

weaken-AtMost : {A : Type 0} (m n : ℕ) (o : Option (A × Text)) → m ≤ n → AtMost m o → AtMost n o
weaken-AtMost m n none p h = tt
weaken-AtMost m n (some (a, rest)) p h = omega (arith, p, h)

head_of-AtMost :
    (c n : ℕ) (o : Option (ℕ × Text))
    → AtMost n o
    → AtMost n (and_then (and_then o λ v. some (c / 32, (v.0, v.1))) items_in)
head_of-AtMost c n none h = tt
head_of-AtMost c n (some (v, rest)) h =
    weaken-AtMost (length rest) n (items_in (c / 32, (v, rest))) h (items_in-AtMost (c / 32) v rest)

-- One item takes at least a byte.
item-AtMost : (c : ℕ) (s : Text) → AtMost (length s) (and_then (read_head (c ∷ s)) items_in)
unfolding read_head read_u8
item-AtMost c s =
    head_of-AtMost c (length s) (read_additional (c % 32) s) (read_additional-AtMost (c % 32) s)

abbrev Leaves : ℕ → Option Text → Type 0
Leaves n none = Unit {0}
Leaves n (some rest) = length rest ≤ n

skip_items-Leaves : (f n : ℕ) (s : Text) → Leaves (length s) (skip_items f n s)
unfolding skip_items
skip_items-Leaves f zero s = omega arith
skip_items-Leaves zero (suc n) s = tt
skip_items-Leaves (suc f) (suc n) [] = tt
skip_items-Leaves (suc f) (suc n) (c ∷ s) =
    elim (Option-cases (and_then (read_head (c ∷ s)) items_in)) [
      | inl stuck ↦ rw (skip_items, stuck) tt
      | inr ((m, inside), found) ↦
          let shorter : length inside ≤ length s =
            subst (AtMost (length s)) found (item-AtMost c s) in
          elim (Option-cases (skip_items f m inside)) [
            | inl stuck ↦ rw (skip_items, found, stuck) tt
            | inr (rest, skipped) ↦
                let less : length rest ≤ length inside =
                  subst (Leaves (length inside)) skipped (skip_items-Leaves f m inside) in
                rw (skip_items, found, skipped)
                  (weaken-Leaves (length rest) (suc (length s)) (skip_items f n rest)
                    (omega (arith, less, shorter)) (skip_items-Leaves f n rest))
          ]
    ]
  where
    weaken-Leaves : (m n : ℕ) (o : Option Text) → m ≤ n → Leaves m o → Leaves n o
    weaken-Leaves m n none p h = tt
    weaken-Leaves m n (some rest) p h = omega (arith, p, h)

-- Any fuel above the number of bytes gives the same result, so the fuel of `skip` is enough.
pub skip_items_fuel :
    (f g n : ℕ) (s : Text) → length s < f → length s < g → skip_items f n s ≡ skip_items g n s
unfolding skip_items
skip_items_fuel f g zero s p q = refl
skip_items_fuel zero g (suc n) s p q = elim p [ ]
skip_items_fuel (suc f) zero (suc n) s p q = elim q [ ]
skip_items_fuel (suc f) (suc g) (suc n) [] p q = refl
skip_items_fuel (suc f) (suc g) (suc n) (c ∷ s) p q =
    elim (Option-cases (and_then (read_head (c ∷ s)) items_in)) [
      | inl stuck ↦ rw (skip_items, stuck) refl
      | inr ((m, inside), found) ↦
          let shorter : length inside ≤ length s =
            subst (AtMost (length s)) found (item-AtMost c s) in
          let same =
            skip_items_fuel f g m inside (omega (arith, p, shorter)) (omega (arith, q, shorter)) in
          elim (Option-cases (skip_items g m inside)) [
            | inl stuck ↦ rw (skip_items, found, same, stuck) refl
            | inr (rest, skipped) ↦
                let less : length rest ≤ length inside =
                  subst (Leaves (length inside)) skipped (skip_items-Leaves g m inside) in
                rw (skip_items, found, same, skipped)
                  (skip_items_fuel f g n rest (omega (arith, p, shorter, less))
                    (omega (arith, q, shorter, less)))
          ]
    ]

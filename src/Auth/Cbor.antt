-- ===== src/Auth/Cbor.antt =====
-- `CborReader` and `parse_cose_ec_key` of backend/src/auth/webauthn.cpp. A position is the bytes from
-- there on, and an exception is `none`. Each round of a loop reads a byte or throws, so a fuel of the
-- bytes that are left and one more is enough. `skip` calls itself at each level of nesting, in the model
-- as in the source, which sets no limit on it; that the stack overflows is not modelled.
pub mod Bounds
use enclave_station.Base.{
  ℕ, zero, suc, ◌+◌, ◌-◌, ◌*◌, ◌/◌, ◌%◌, ◌^◌, Bool, true, false, ◌||◌, Option, none, some, List, [],
  ◌∷◌, if◌then◌else◌, ◌==◌, nat_keys, ltb, leb, length, take, drop, Text,
}

pub data ℤ : Type 0 where
  pos : ℕ → ℤ
  negsuc : ℕ → ℤ

abbrev pub and_then : {A B : Type 0} → Option A → (A → Option B) → Option B
and_then none f = none
and_then (some a) f = f a

unfoldable pub read_u8 : Text → Option (ℕ × Text)
read_u8 [] = none
read_u8 (c ∷ s) = some (c, s)

-- `ensure(n)`, then the next n bytes
unfoldable pub read_bytes : ℕ → Text → Option (Text × Text)
read_bytes n s = if leb n (length s) then some (take n s, drop n s) else none

-- The number with the bytes as its digits, after the one given.
abbrev pub number_from : ℕ → Text → ℕ
number_from n [] = n
number_from n (c ∷ s) = number_from (n * 2 ^ 8 + c) s

abbrev pub read_number : ℕ → Text → Option (ℕ × Text)
read_number n s = and_then (read_bytes n s) λ r. some (number_from 0 r.0, r.1)

unfoldable pub read_additional : ℕ → Text → Option (ℕ × Text)
unfolding read_u8 read_bytes
read_additional a s =
    if ltb a 24
    then some (a, s)
    else if a == 24
    then read_u8 s
    else if a == 25
    then read_number 2 s
    else if a == 26
    then read_number 4 s
    else none

-- The first byte and what belongs to it: the major type, the value and the rest.
unfoldable pub read_head : Text → Option (ℕ × (ℕ × Text))
unfolding read_u8 read_additional
read_head s =
    and_then (read_u8 s)
      λ b. and_then (read_additional (b.0 % 32) b.1) λ v. some (b.0 / 32, (v.0, v.1))

abbrev pub int_of : ℕ × (ℕ × Text) → Option (ℤ × Text)
int_of (major, (v, s)) =
    if major == 0 then some (pos v, s) else if major == 1 then some (negsuc v, s) else none

unfoldable pub read_int : Text → Option (ℤ × Text)
unfolding read_head
read_int s = and_then (read_head s) int_of

unfoldable pub read_bstr : Text → Option (Text × Text)
unfolding read_head read_bytes
read_bstr s = and_then (read_head s) λ h. if h.0 == 2 then read_bytes h.1.0 h.1.1 else none

unfoldable pub read_map_header : Text → Option (ℕ × Text)
unfolding read_head
read_map_header s = and_then (read_head s) λ h. if h.0 == 5 then some h.1 else none

-- What is left to do at an item: the items in it, and the bytes behind its own.
unfoldable pub items_in : ℕ × (ℕ × Text) → Option (ℕ × Text)
unfolding read_bytes
items_in (major, (v, s)) =
    if (leb major 1) || (major == 7)
    then some (0, s)
    else if leb major 3
    then and_then (read_bytes v s) (λ r. some (0, r.1))
    else if major == 4
    then some (v, s)
    else if major == 5
    then some (v * 2, s)
    else none

-- `skip()` called n times: each call reads an item's head and skips the items in it.
unfoldable pub skip_items : ℕ → ℕ → Text → Option Text
unfolding read_head items_in
skip_items fuel zero s = some s
skip_items zero (suc n) s = none
skip_items (suc fuel) (suc n) s =
    and_then (and_then (read_head s) items_in)
      λ r. and_then (skip_items fuel r.0 r.1) λ rest. skip_items fuel n rest

unfoldable pub skip : Text → Option Text
unfolding skip_items
skip s = skip_items (suc (length s)) 1 s

-- `static_cast<int>` of a value that a reader with 32-bit lengths gives.
abbrev pub to_int : ℤ → ℤ
to_int (pos n) = if ltb n (2 ^ 31) then pos n else negsuc (2 ^ 32 - 1 - n)
to_int (negsuc n) = if ltb n (2 ^ 31) then negsuc n else pos (2 ^ 32 - 1 - n)

pub record CoseKeyData : Type 0 where
  pub kty : ℤ
  pub alg : ℤ
  pub crv : ℤ
  pub x : Text
  pub y : Text

abbrev pub no_key : CoseKeyData
no_key = record { kty = pos 0; alg = pos 0; crv = pos 0; x = []; y = [] }

abbrev pub set_int : (ℤ → CoseKeyData) → Text → Option (CoseKeyData × Text)
set_int set s = and_then (read_int s) λ r. some (set (to_int r.0), r.1)

abbrev pub set_bytes : (Text → CoseKeyData) → Text → Option (CoseKeyData × Text)
set_bytes set s = and_then (read_bstr s) λ r. some (set r.0, r.1)

abbrev pub skip_value : CoseKeyData → Text → Option (CoseKeyData × Text)
skip_value key s = and_then (skip s) λ r. some (key, r)

-- The `switch` on a label.
unfoldable pub cose_entry : CoseKeyData → ℤ → Text → Option (CoseKeyData × Text)
unfolding read_int read_bstr skip
cose_entry key (pos n) s =
    if n == 1
    then set_int (λ v. record key { kty = v }) s
    else if n == 3
    then set_int (λ v. record key { alg = v }) s
    else skip_value key s
cose_entry key (negsuc n) s =
    if n == 0
    then set_int (λ v. record key { crv = v }) s
    else if n == 1
    then set_bytes (λ v. record key { x = v }) s
    else if n == 2
    then set_bytes (λ v. record key { y = v }) s
    else skip_value key s

unfoldable pub cose_loop : ℕ → ℕ → CoseKeyData → Text → Option CoseKeyData
unfolding read_int cose_entry
cose_loop fuel zero key s = some key
cose_loop zero (suc n) key s = none
cose_loop (suc fuel) (suc n) key s =
    and_then (and_then (read_int s) λ l. cose_entry key l.0 l.1) λ r. cose_loop fuel n r.0 r.1

unfoldable pub parse_cose_ec_key : Text → Option CoseKeyData
unfolding cose_loop read_map_header
parse_cose_ec_key bytes =
    and_then (read_map_header bytes) λ h. cose_loop (suc (length h.1)) h.0 no_key h.1

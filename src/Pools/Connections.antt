-- ===== src/Pools/Connections.antt =====
-- backend/src/db/connection_pool.{h,cpp}. The mutex makes a step of each critical section. A
-- connection is its number; whether it is open and whether a new one can be made is up to libpqxx, so
-- each step is told. `checking` are the connections that an `acquire` has taken from the queue and
-- is testing outside the mutex, and `held` are those of the live guards.
pub mod Capacity
use enclave_station.Base.{
  ℕ, zero, suc, Bool, true, false, List, [], ◌∷◌, ◌++◌, ◌-◌, if◌then◌else◌, ◌==◌, nat_keys, leb,
  length, Option, none, some, ◌≡◌, times,
}

pub record Pool : Type 0 where
  pub pool_size : ℕ
  pub connections : List ℕ
  pub checking : List ℕ
  pub held : List ℕ
  pub next : ℕ

-- A `unique_ptr` is moved out.
unfoldable pub moved_out : ℕ → List ℕ → List ℕ
moved_out c [] = []
moved_out c (x ∷ xs) = let rest = moved_out c xs in if x == c then xs else x ∷ rest

-- The numbers from `n` on.
unfoldable pub fresh_from : ℕ → ℕ → List ℕ
fresh_from n zero = []
fresh_from n (suc k) = n ∷ fresh_from (suc n) k

-- The constructor.
unfoldable pub connection_pool : ℕ → Pool
unfolding fresh_from
connection_pool size = record {
  pool_size = size;
  connections = fresh_from 0 size;
  checking = [];
  held = [];
  next = size;
}

-- The critical section of `acquire`. With no connection in the queue the caller waits, and after the
-- timeout it gets a ConnectionPoolTimeout.
abbrev pub front_of : Pool → List ℕ → Option (ℕ × Pool)
front_of p [] = none
front_of p (c ∷ rest) = some (c, record p { connections = rest; checking = c ∷ p.checking })

unfoldable pub take_front : Pool → Option (ℕ × Pool)
take_front p = front_of p p.connections

-- What libpqxx does in the rest of an `acquire`: the connection is open, it was replaced, the first
-- attempt to replace it failed and the second did not, or both failed.
pub data Check : Type 0 where
  open_connection : Check
  replaced : Check
  second_attempt : Check
  both_failed : Check

-- The rest of `acquire`. A caller that gets no connection gets the exception.
unfoldable pub check : Pool → ℕ → Check → Pool
unfolding moved_out
check p c open_connection = record p { checking = moved_out c p.checking; held = c ∷ p.held }
check p c replaced = record p {
  checking = moved_out c p.checking;
  held = p.next ∷ p.held;
  next = suc p.next;
}
check p c second_attempt = record p {
  checking = moved_out c p.checking;
  connections = p.connections ++ p.next ∷ [];
  next = suc p.next;
}
check p c both_failed = record p { checking = moved_out c p.checking }

-- The same for `release`.
pub data Return : Type 0 where
  still_open : Return
  renewed : Return
  gone : Return

unfoldable pub release : Pool → ℕ → Return → Pool
unfolding moved_out
release p c still_open = record p {
  held = moved_out c p.held;
  connections = p.connections ++ c ∷ [];
}
release p c renewed = record p {
  held = moved_out c p.held;
  connections = p.connections ++ p.next ∷ [];
  next = suc p.next;
}
release p c gone = record p { held = moved_out c p.held }

unfoldable pub available : Pool → ℕ
available p = length p.connections

-- `total >= available ? total - available : 0`, which the subtraction of ℕ is.
unfoldable pub size_in_use : Pool → ℕ
size_in_use p =
    let available = length p.connections in
    if leb available p.pool_size then p.pool_size - available else 0

-- The steps of all callers. A guard is destroyed once, and a test ends once.
pub data Step (p : Pool) : Pool → Type 0 where
  taken : (c : ℕ) (rest : Pool) → take_front p ≡ some (c, rest) → Step p rest
  checked : (c : ℕ) (r : Check) (k : ℕ) → times c p.checking ≡ suc k → Step p (check p c r)
  released : (c : ℕ) (r : Return) (k : ℕ) → times c p.held ≡ suc k → Step p (release p c r)

pub data Reach (p : Pool) : Pool → Type 0 where
  here : Reach p p
  next : {q r : Pool} → Reach p q → Step q r → Reach p r

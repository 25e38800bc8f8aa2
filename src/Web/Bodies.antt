-- ===== src/Web/Bodies.antt =====
-- `append_capped` of backend/src/handlers/handler_utils.h, over the chunks of a request's body. The
-- body and the cap are small enough that the sum of two sizes does not overflow `int64_t`.
use enclave_station.Base.{
  ℕ, ◌+◌, ◌≤◌, ◌≡◌, refl, sym, ◌⊎◌, inl, inr, Bool, true, false, not, ◌&&◌, List, [], ◌∷◌, ◌++◌,
  if◌then◌else◌, ltb, Text, length, arith, Bool-cases, length-append,
}
use mathlib.Core.List.{append-nil, append_assoc}

-- The body so far, the shared flag, and how many times the 413 was sent.
pub record Upload : Type 0 where
  pub body : Text
  pub aborted : Bool
  pub refusals : ℕ

abbrev pub no_upload : Upload
no_upload = record { body = []; aborted = false; refusals = 0 }

abbrev pub fits : ℕ → ℕ → Bool
fits limit size = not (ltb 0 limit && ltb limit size)

-- The answer of the function, and what it leaves. `limit` is not negative; 0 is no limit.
unfoldable pub append_capped : Upload → Text → ℕ → Bool × Upload
append_capped u chunk limit =
    if u.aborted
    then (true, u)
    else if not (fits limit (length u.body + length chunk))
    then (true, record u { aborted = true; refusals = u.refusals + 1 })
    else (false, record u { body = u.body ++ chunk })

-- The `onData` callbacks of a request.
unfoldable pub receive : ℕ → List Text → Upload → Upload
receive limit [] u = u
receive limit (c ∷ cs) u = receive limit cs (append_capped u c limit).1

abbrev pub join : List Text → Text
join [] = []
join (c ∷ cs) = c ++ join cs

receive-aborted :
    (limit : ℕ) (cs : List Text) (b : Text) (n : ℕ)
    → receive limit cs (record { body = b; aborted = true; refusals = n })
      ≡ record { body = b; aborted = true; refusals = n }
unfolding receive append_capped
receive-aborted limit [] b n = refl
receive-aborted limit (c ∷ cs) b n = receive-aborted limit cs b n

fits-le : (limit m n : ℕ) → m ≤ n → fits limit n ≡ true → fits limit m ≡ true
fits-le limit m n p h = ground arith

-- The outcome of the chunks on a body that is within the limit.
abbrev pub Received : ℕ → Text → ℕ → Upload → Type 0
Received limit whole n u =
    (u.aborted ≡ not (fits limit (length whole)))
    × (u.refusals ≡ (if fits limit (length whole) then n else n + 1))
    × ((u.body ≡ whole) ⊎ (fits limit (length whole) ≡ false))
    × (fits limit (length u.body) ≡ true)

receive-Received :
    (limit : ℕ) (cs : List Text) (body : Text) (n : ℕ)
    → fits limit (length body) ≡ true
    → Received limit
        (body ++ join cs)
        n
        (receive limit cs (record { body = body; aborted = false; refusals = n }))
unfolding receive append_capped
receive-Received limit [] body n h =
    rw (append-nil body) (ground (arith, h), ground (arith, h), inl refl, h)
receive-Received limit (c ∷ cs) body n h = elim (Bool-cases (fits limit (length body + length c))) [
  | inl good ↦
      rw (receive, append_capped, good, sym (append_assoc body c (join cs)))
        (receive-Received limit cs (body ++ c) n (rw (length-append body c) good))
  | inr over ↦
      let whole : fits limit (length (body ++ (c ++ join cs))) ≡ false = ground (
        arith,
        fits-le limit (length body + length c) (length (body ++ (c ++ join cs))),
        over,
        length-append body (c ++ join cs),
        length-append c (join cs),
      ) in
      rw (receive, append_capped, over, receive-aborted limit cs body (n + 1), whole)
        (refl, refl, inr refl, h)
]

-- The body never grows past the limit. If all chunks together fit, it is their concatenation, and
-- nothing is refused; if not, the request is aborted with exactly one 413.
pub receive-exact :
    (limit : ℕ) (cs : List Text)
    → let u = receive limit cs no_upload in
      let whole = fits limit (length (join cs)) in
      (u.aborted ≡ not whole)
      × (u.refusals ≡ (if whole then 0 else 1))
      × ((u.body ≡ join cs) ⊎ (whole ≡ false))
      × (fits limit (length u.body) ≡ true)
receive-exact limit cs = receive-Received limit cs [] 0 (ground arith)

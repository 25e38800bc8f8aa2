-- ===== src/Auth/Totp/Replay.antt =====
-- The step that `verify_code` of backend/src/auth/totp.cpp accepts a code for.
use enclave_station.Base.{
  ℕ, zero, suc, ◌+◌, ◌*◌, ◌/◌, ◌≤◌, ◌<◌, ◌≡◌, refl, subst, inl, inr, Bool, true, false, not, ◌&&◌,
  Option, none, some, text_keys, leb, Text, arith, Bool-cases,
}
use enclave_station.Auth.Totp.{
  is_code, is_consumed, step_at, compute_code, verify_loop, verify_code,
}

module _ (hmac : Text → Text → Text) (secret code : Text) (last : Option ℕ)
    (current window : ℕ) where
  -- Whether the k-th step of the window is new and has the code.
  abbrev pub matches : ℕ → Bool
  matches k =
      not (is_consumed last (step_at current window k))
      && is_code code (compute_code hmac secret (step_at current window k))

  -- The first match among some steps from the k-th on, or none.
  abbrev pub FirstMatch : ℕ → ℕ → Option ℕ → Type 0
  FirstMatch k left none = (j : ℕ) → k ≤ j → j < k + left → matches j ≡ false
  FirstMatch k left (some step) =
      (i : ℕ) × (k ≤ i)
      × (i < k + left)
      × (step ≡ step_at current window i)
      × (matches i ≡ true)
      × ((j : ℕ) → k ≤ j → j < i → matches j ≡ false)

  extend :
      (k left : ℕ) (o : Option ℕ)
      → matches k ≡ false
      → FirstMatch (suc k) left o
      → FirstMatch k (suc left) o
  extend k left none differs h = λ j p q. elim (Bool-cases (leb j k)) [
    | inl at ↦
        let same : k ≡ j = ground (arith, p, at) in subst (λ x. matches x ≡ false) same differs
    | inr past ↦ h j (ground (arith, past)) (omega (arith, q))
  ]
  extend k left (some step) differs (i, p, q, e, m, before) = (
    i,
    omega (arith, p),
    omega (arith, q),
    e,
    m,
    λ j r t. elim (Bool-cases (leb j k)) [
      | inl at ↦
          let same : k ≡ j = ground (arith, r, at) in subst (λ x. matches x ≡ false) same differs
      | inr past ↦ before j (ground (arith, past)) t
    ],
  )

  verify_loop-FirstMatch :
      (left k : ℕ) → FirstMatch k left (verify_loop hmac secret code last current window left k)
  unfolding verify_loop
  verify_loop-FirstMatch zero k = λ j p q. absurd (omega (arith, p, q))
  verify_loop-FirstMatch (suc left) k =
      let o = verify_loop hmac secret code last current window left (suc k) in
      elim (Bool-cases (is_consumed last (step_at current window k))) [
        | inl old ↦
            rw (verify_loop, old)
              (extend k left o (ground (arith, old)) (verify_loop-FirstMatch left (suc k)))
        | inr fresh ↦
            elim (Bool-cases (is_code code (compute_code hmac secret (step_at current window k)))) [
              | inl hit ↦
                  rw (verify_loop, fresh, hit)
                    (
                      k,
                      omega arith,
                      omega arith,
                      refl,
                      ground (arith, fresh, hit),
                      λ j p q. absurd (omega (arith, p, q)),
                    )
              | inr miss ↦
                  rw (verify_loop, fresh, miss)
                    (extend k left o (ground (arith, fresh, miss))
                      (verify_loop-FirstMatch left (suc k)))
            ]
      ]

-- The steps of the window are tried from the oldest to the newest. A code is accepted for the first
-- step that is later than the last one consumed and has the code; it is refused just if there is none.
pub verify_code-FirstMatch :
    (hmac : Text → Text → Text) (secret code : Text) (last : Option ℕ) (window now : ℕ)
    → FirstMatch hmac secret code last
        (now / 30)
        window
        0
        (2 * window + 1)
        (verify_code hmac secret code last window now)
unfolding verify_code
verify_code-FirstMatch hmac secret code last window now =
    verify_loop-FirstMatch hmac secret code last (now / 30) window (2 * window + 1) 0

after-last :
    (hmac : Text → Text → Text) (secret code : Text) (last current window k left s : ℕ)
    (o : Option ℕ)
    → FirstMatch hmac secret code (some last) current window k left o
    → o ≡ some s
    → last < s
after-last hmac secret code last current window k left s none h e = ground (arith, e)
after-last hmac secret code last current window k left s (some t) (i, p, q, at, m, before) e =
    ground (arith, e, at, m)

-- A code is never accepted for a step that is not later than the last one consumed, at whatever time.
pub verify_code-later :
    (hmac : Text → Text → Text) (secret code : Text) (last window now step : ℕ)
    → verify_code hmac secret code (some last) window now ≡ some step
    → last < step
verify_code-later hmac secret code last window now step =
    after-last hmac secret code last (now / 30) window 0 (2 * window + 1) step
      (verify_code hmac secret code (some last) window now)
      (verify_code-FirstMatch hmac secret code (some last) window now)

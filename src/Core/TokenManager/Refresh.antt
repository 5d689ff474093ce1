-- ===== src/Core/TokenManager/Refresh.antt =====
-- The retries of a refresh.
use olane.Common.{
  ℕ, zero, suc, ◌+◌, ◌-◌, ◌*◌, ◌^◌, ◌≤◌, ◌<◌, min, ◌≡◌, refl, ap, ◌∙◌, Bool, true, false, List, [],
  ◌∷◌, ◌++◌, append_assoc, append-nil, some, Text, Result, ok, err, arith,
}
use olane.Core.TokenManager.{
  TokenResult, TokenConfig, State, Provider, save_to_store, schedule_auto_refresh,
  clear_refresh_timer, accept, attempts, execute_refresh_with_retry,
}

-- The pauses before the `k` attempts that follow attempt `n`: from a second on they double, up to half
-- a minute.
unfoldable pub backoffs : ℕ → ℕ → List ℕ
backoffs n zero = []
backoffs n (suc k) = min (1000 * 2 ^ n) 30000 ∷ backoffs (suc n) k

abbrev pub is_ok : Result Text TokenResult → Bool
is_ok (ok r) = true
is_ok (err e) = false

failure : (x : Result Text TokenResult) → is_ok x ≡ false → (e : Text) × (x ≡ err e)
failure (ok r) h = ground arith
failure (err e) h = (e, refl)

accept_lem :
    (config : TokenConfig) (works : Bool) (now : ℕ) (r : TokenResult) (s : State)
    → let t = accept config works now r s in
      (t.current_result ≡ some r)
      × (t.acquired_at ≡ some now)
      × (t.slept ≡ s.slept)
      × (t.failures_told ≡ s.failures_told)
unfolding accept save_to_store schedule_auto_refresh clear_refresh_timer
accept_lem config works now r s = ground arith

module _ (config : TokenConfig) (works : Bool) (clock : ℕ → ℕ) (provider : Provider) where
  attempts_ok :
      (n left : ℕ) (r : TokenResult) (s : State)
      → provider n ≡ ok r
      → attempts config works clock provider n left s ≡ (ok r, accept config works (clock n) r s)
  unfolding attempts
  attempts_ok n zero r s e = rw (e, attempts) refl
  attempts_ok n (suc left) r s e = rw (e, attempts) refl

  attempts_err :
      (n left : ℕ) (e : Text) (s : State)
      → provider n ≡ err e
      → attempts config works clock provider n (suc left) s
        ≡ attempts config works clock provider
            (suc n)
            left
            (record s { slept = s.slept ++ min (1000 * 2 ^ n) 30000 ∷ [] })
  unfolding attempts
  attempts_err n left e s h = rw (h, attempts) refl

  attempts_give_up :
      (n : ℕ) (e : Text) (s : State)
      → provider n ≡ err e
      → attempts config works clock provider n 0 s
        ≡ (err e, record s { failures_told = s.failures_told + 1 })
  unfolding attempts
  attempts_give_up n e s h = rw (h, attempts) refl

  -- What is left to do of a refresh whose attempts failed up to the `k`-th from here on.
  attempts_skip :
      (k n left total last : ℕ) (s : State)
      → total ≡ k + left
      → last ≡ n + k
      → ((j : ℕ) → n ≤ j → j < last → is_ok (provider j) ≡ false)
      → attempts config works clock provider n total s
        ≡ attempts config works clock provider last left
            (record s { slept = s.slept ++ backoffs n k })
  unfolding backoffs
  attempts_skip zero n left total last s p q fails =
      let p' : total ≡ left = omega arith in
      let q' : last ≡ n = omega arith in rw (p', q', append-nil s.slept) refl
  attempts_skip (suc k) n left total last s p q fails =
      let (e, failed) = failure (provider n) (fails n (omega arith) (omega arith)) in
      let p' : total ≡ suc (k + left) = omega arith in
      let pause = min (1000 * 2 ^ n) 30000 ∷ [] in
      let t = record s { slept = s.slept ++ pause } in
      let rest =
        attempts_skip k (suc n) left (k + left) last t refl (omega arith)
          (λ j le lt. fails j (omega arith) lt) in
      ap (λ m. attempts config works clock provider n m s) p'
      ∙ (attempts_err n (k + left) e s failed
          ∙ (rest ∙ rw (append_assoc s.slept pause (backoffs (suc n) k)) refl))

  -- A refresh whose attempts throw up to the `k`-th, which gets a token, returns that token and keeps
  -- it, if it is not past the last retry: it has paused after each failure, from a second on and twice
  -- as long each time up to half a minute, and tells no failure.
  pub execute_refresh_with_retry_ok :
      (k : ℕ) (r : TokenResult) (s : State)
      → ((j : ℕ) → j < k → is_ok (provider j) ≡ false)
      → provider k ≡ ok r
      → k ≤ config.max_refresh_retries
      → let (answer, t) = execute_refresh_with_retry config works clock provider s in
        (answer ≡ ok r)
        × (t.current_result ≡ some r)
        × (t.acquired_at ≡ some (clock k))
        × (t.slept ≡ s.slept ++ backoffs 0 k)
        × (t.failures_told ≡ s.failures_told)
  unfolding execute_refresh_with_retry
  execute_refresh_with_retry_ok k r s fails good le =
      let left = config.max_refresh_retries - k in
      let t = record s { slept = s.slept ++ backoffs 0 k } in
      let (kept, acquired, slept, told) = accept_lem config works (clock k) r t in
      let run : execute_refresh_with_retry config works clock provider s
          ≡ (ok r, accept config works (clock k) r t) =
        attempts_skip k 0 left config.max_refresh_retries k s (omega arith) (omega arith)
          (λ j low lt. fails j lt)
        ∙ attempts_ok k left r t good in
      rw run (refl, kept, acquired, slept, told)

  -- A refresh whose attempts all throw, retries included, throws the last error, tells it once, and
  -- leaves the token as it was.
  pub execute_refresh_with_retry_err :
      (e : Text) (s : State)
      → ((j : ℕ) → j < config.max_refresh_retries → is_ok (provider j) ≡ false)
      → provider config.max_refresh_retries ≡ err e
      → let (answer, t) = execute_refresh_with_retry config works clock provider s in
        (answer ≡ err e)
        × (t ≡ record s {
          slept = s.slept ++ backoffs 0 config.max_refresh_retries;
          failures_told = s.failures_told + 1;
        })
  unfolding execute_refresh_with_retry
  execute_refresh_with_retry_err e s fails last =
      let m = config.max_refresh_retries in
      let t = record s { slept = s.slept ++ backoffs 0 m } in
      let run : execute_refresh_with_retry config works clock provider s
          ≡ (err e, record t { failures_told = t.failures_told + 1 }) =
        attempts_skip m 0 0 m m s (omega arith) (omega arith) (λ j low lt. fails j lt)
        ∙ attempts_give_up m e t last in
      (ap (λ z. z.0) run, ap (λ z. z.1) run)

-- ===== src/Core/TokenManager/Tests.antt =====
-- Witnesses of the token manager.
use olane.Common.{
  ℕ, zero, suc, ◌<◌, ◌≡◌, refl, true, false, [], ◌++◌, none, some, codes, ok, err, arith,
}
use olane.Core.TokenManager.{TokenResult, TokenConfig, State, Provider, execute_refresh_with_retry}
use olane.Core.TokenManager.Expiry.{initial}
use olane.Core.TokenManager.Refresh.{backoffs, is_ok, execute_refresh_with_retry_ok}

abbrev config : TokenConfig
config = record {
  auto_refresh = true;
  refresh_buffer_ms = 60000;
  default_lifetime_ms = 3600000;
  max_refresh_retries = 1;
  has_store = true;
}

abbrev token : TokenResult
token = record { token = codes "t"; expires_at = none; refresh_token = some (codes "r") }

abbrev held : State
held = record initial { current_result = some token; acquired_at = some 1000 }

-- The first call throws, the later ones give a token.
abbrev second_works : Provider
second_works zero = err (codes "busy")
second_works (suc n) = ok token

abbrev broken : Provider
broken n = err (codes "down")

abbrev clock : ℕ → ℕ
clock n = 5000

execute_refresh_with_retry_ok_example :
    let (answer, t) = execute_refresh_with_retry config true clock second_works initial in
    (answer ≡ ok token)
    × (t.current_result ≡ some token)
    × (t.acquired_at ≡ some 5000)
    × (t.slept ≡ [] ++ backoffs 0 1)
    × (t.failures_told ≡ 0)
execute_refresh_with_retry_ok_example =
    execute_refresh_with_retry_ok config true clock second_works 1 token initial early refl
      (omega arith)
  where
    early : (j : ℕ) → j < 1 → is_ok (second_works j) ≡ false
    early zero h = refl
    early (suc j) h = ground arith

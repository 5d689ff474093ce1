-- ===== src/Core/TokenManager.antt =====
-- packages/o-core/src/auth/o-token-manager.ts: the token that a node keeps, with its refresh. The
-- provider and the store are parameters: `acquireToken` gives a token or throws, attempt by attempt,
-- and the store answers an entry, or `none` where it has none or throws. `Date.now()` is a number that
-- one call reads once. No two calls run at once here, so `refreshPromise` has no part in it.
pub mod Expiry
pub mod Refresh
mod Tests
use olane.Common.{
  ℕ, zero, suc, ◌+◌, ◌-◌, ◌*◌, ◌^◌, min, Bool, true, false, not, ◌&&◌, ◌||◌, List, [], ◌∷◌, ◌++◌,
  Option, none, some, Text, codes, if◌then◌else◌, is_some, leb, Result, ok, err,
}

-- `claims` is passed on unread. `expires_at` is in seconds.
pub record TokenResult : Type 0 where
  pub token : Text
  pub expires_at : Option ℕ
  pub refresh_token : Option Text

pub record StoreEntry : Type 0 where
  pub result : TokenResult
  pub acquired_at : ℕ

pub record TokenConfig : Type 0 where
  pub auto_refresh : Bool
  pub refresh_buffer_ms : ℕ
  pub default_lifetime_ms : ℕ
  pub max_refresh_retries : ℕ
  pub has_store : Bool

pub record State : Type 0 where
  pub current_result : Option TokenResult
  pub acquired_at : Option ℕ
  pub store_loaded : Bool
  pub destroyed : Bool
  pub saved : Option StoreEntry
  pub timer : Option ℕ
  pub slept : List ℕ
  pub provider_refresh_token : Option Text
  pub failures_told : ℕ

unfoldable pub get_expires_at_ms : TokenConfig → State → Option ℕ
get_expires_at_ms config s = elim s.current_result [
  | none ↦ none
  | some r ↦ elim r.expires_at [
    | some seconds ↦ some (seconds * 1000)
    | none ↦ elim s.acquired_at [
      | none ↦ none
      | some at_ms ↦ some (at_ms + config.default_lifetime_ms)
    ]
  ]
]

unfoldable pub is_expired : TokenConfig → ℕ → State → Bool
is_expired config now s =
    if not (is_some s.current_result)
    then true
    else elim (get_expires_at_ms config s) [ none ↦ false | some e ↦ leb e now ]

-- `now >= e - buffer`, where the difference may be negative.
unfoldable pub is_close_to_expiration : TokenConfig → ℕ → State → Bool
is_close_to_expiration config now s =
    if not (is_some s.current_result) then true else elim (get_expires_at_ms config s) [
      | none ↦ false
      | some e ↦ leb e (now + config.refresh_buffer_ms)
    ]

-- `Math.max(0, e - now)` is the difference that stops at 0.
unfoldable pub get_time_until_expiration : TokenConfig → ℕ → State → Option ℕ
get_time_until_expiration config now s =
    if not (is_some s.current_result)
    then none
    else elim (get_expires_at_ms config s) [ none ↦ none | some e ↦ some (e - now) ]

unfoldable pub clear_refresh_timer : State → State
clear_refresh_timer s = record s { timer = none }

-- `Math.max(0, e - buffer - now)`.
unfoldable pub schedule_auto_refresh : TokenConfig → ℕ → State → State
schedule_auto_refresh config now s =
    let t = clear_refresh_timer s in
    if not config.auto_refresh || t.destroyed then t else elim (get_expires_at_ms config t) [
      | none ↦ t
      | some e ↦ record t { timer = some (e - (config.refresh_buffer_ms + now)) }
    ]

-- A store that fails is passed over: `store_works` is whether `store.set` succeeds.
unfoldable pub save_to_store : TokenConfig → Bool → State → State
save_to_store config store_works s =
    if config.has_store && store_works
    then elim s.current_result [
      | none ↦ s
      | some r ↦ elim s.acquired_at [
        | none ↦ s
        | some at_ms ↦ record s { saved = some (record { result = r; acquired_at = at_ms }) }
      ]
    ]
    else s

unfoldable pub load_from_store : TokenConfig → ℕ → Option StoreEntry → State → Bool × State
load_from_store config now stored s =
    let t = record s { store_loaded = true } in
    elim stored [
      | none ↦ (false, t)
      | some entry ↦
          let told : Option Text = elim entry.result.refresh_token [
            | none ↦ t.provider_refresh_token
            | some x ↦ some x
          ] in
          (
            true,
            schedule_auto_refresh config now (record t {
              current_result = some entry.result;
              acquired_at = some entry.acquired_at;
              provider_refresh_token = told;
            }),
          )
    ]

-- The token is taken over: the body of the `try`.
unfoldable pub accept : TokenConfig → Bool → ℕ → TokenResult → State → State
accept config store_works now r s = save_to_store config store_works (
    schedule_auto_refresh config now (record s { current_result = some r; acquired_at = some now }))

abbrev pub Provider : Type 0
Provider = ℕ → Result Text TokenResult

-- Attempt `n`, with `left` retries after it; `clock` says when each attempt ends. The last error is
-- told to `onRefreshFailure` and thrown.
unfoldable pub attempts :
    TokenConfig → Bool → (ℕ → ℕ) → Provider → ℕ → ℕ → State → Result Text TokenResult × State
attempts config store_works clock provider n zero s = elim (provider n) [
  | ok r ↦ (ok r, accept config store_works (clock n) r s)
  | err e ↦ (err e, record s { failures_told = s.failures_told + 1 })
]
attempts config store_works clock provider n (suc left) s =
    let later =
      attempts config store_works clock provider (suc n) left
        (record s { slept = s.slept ++ min (1000 * 2 ^ n) 30000 ∷ [] }) in
    elim (provider n) [ ok r ↦ (ok r, accept config store_works (clock n) r s) | err e ↦ later ]

unfoldable pub execute_refresh_with_retry :
    TokenConfig → Bool → (ℕ → ℕ) → Provider → State → Result Text TokenResult × State
execute_refresh_with_retry config store_works clock provider s =
    attempts config store_works clock provider 0 config.max_refresh_retries s

abbrev pub has_been_destroyed : Text
has_been_destroyed = codes "oTokenManager has been destroyed"

unfoldable pub refresh :
    TokenConfig → Bool → (ℕ → ℕ) → Provider → State → Result Text TokenResult × State
refresh config store_works clock provider s =
    if s.destroyed
    then (err has_been_destroyed, s)
    else execute_refresh_with_retry config store_works clock provider s

-- The token that is kept, if it has not expired.
abbrev pub fresh : TokenConfig → ℕ → State → Option TokenResult
fresh config now s = if is_expired config now s then none else s.current_result

-- A token that is at hand is returned; else there is more to do.
abbrev pub or_else :
    Option TokenResult → State → Result Text TokenResult × State → Result Text TokenResult × State
or_else (some r) s more = (ok r, s)
or_else none s more = more

-- `now` is the time of the call, `stored` what the store answers.
unfoldable pub get_token_result :
    TokenConfig
    → Bool
    → (ℕ → ℕ)
    → Provider
    → Option StoreEntry
    → ℕ
    → Bool
    → State
    → Result Text TokenResult × State
get_token_result config store_works clock provider stored now force_refresh s =
    let (loaded, t) = load_from_store config now stored s in
    let restored =
      or_else (if loaded then fresh config now t else none) t
        (refresh config store_works clock provider t) in
    let is_first =
      not force_refresh
      && not (is_some s.current_result)
      && config.has_store
      && not s.store_loaded in
    if s.destroyed
    then (err has_been_destroyed, s)
    else or_else (if force_refresh then none else fresh config now s) s
        (if is_first then restored else refresh config store_works clock provider s)

-- The state before the provider's own `destroy`, which is not this class's.
unfoldable pub destroy : TokenConfig → Bool → State → State
destroy config store_works s =
    let t =
      save_to_store config store_works (clear_refresh_timer (record s { destroyed = true })) in
    record t { current_result = none; acquired_at = none }

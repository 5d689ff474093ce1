-- ===== src/Core/TokenManager/Expiry.antt =====
-- When a token is expired, and what outlives its manager.
use olane.Common.{ℕ, ◌≡◌, refl, sym, ap, ◌∙◌, Bool, true, false, [], Option, none, some, ok, arith}
use olane.Core.TokenManager.{
  TokenResult, StoreEntry, TokenConfig, State, get_expires_at_ms, is_expired, schedule_auto_refresh,
  clear_refresh_timer, save_to_store, load_from_store, Provider, fresh, get_token_result, destroy,
}

abbrev pub initial : State
initial = record {
  current_result = none;
  acquired_at = none;
  store_loaded = false;
  destroyed = false;
  saved = none;
  timer = none;
  slept = [];
  provider_refresh_token = none;
  failures_told = 0;
}

is_expired_same :
    (config : TokenConfig) (now : ℕ) (s t : State)
    → s.current_result ≡ t.current_result
    → s.acquired_at ≡ t.acquired_at
    → is_expired config now s ≡ is_expired config now t
unfolding is_expired get_expires_at_ms
is_expired_same config now s t p q =
    let given : Option TokenResult → Option ℕ → Bool =
      λ c a. is_expired config now (record s { current_result = c; acquired_at = a }) in
    ap (λ c. given c s.acquired_at) p ∙ ap (λ a. given t.current_result a) q

saved-destroy :
    (config : TokenConfig) (r : TokenResult) (at_ms : ℕ) (s : State)
    → config.has_store ≡ true
    → s.current_result ≡ some r
    → s.acquired_at ≡ some at_ms
    → (destroy config true s).saved ≡ some (record { result = r; acquired_at = at_ms })
unfolding destroy save_to_store clear_refresh_timer
saved-destroy config r at_ms s h c a = ground (arith, h, c, a)

schedule_lem :
    (config : TokenConfig) (now : ℕ) (s : State)
    → let t = schedule_auto_refresh config now s in
      (t.current_result ≡ s.current_result) × (t.acquired_at ≡ s.acquired_at)
unfolding schedule_auto_refresh clear_refresh_timer
schedule_lem config now s = ground arith

load_from_store_lem :
    (config : TokenConfig) (now : ℕ) (entry : StoreEntry) (s : State)
    → let (loaded, t) = load_from_store config now (some entry) s in
      (loaded ≡ true)
      × (t.current_result ≡ some entry.result)
      × (t.acquired_at ≡ some entry.acquired_at)
unfolding load_from_store
load_from_store_lem config now entry s =
    (refl, (schedule_lem config now _).0, (schedule_lem config now _).1)

save_lem :
    (config : TokenConfig) (works : Bool) (s : State)
    → let t = save_to_store config works s in (t.timer ≡ s.timer) × (t.destroyed ≡ s.destroyed)
unfolding save_to_store
save_lem config works s = ground arith

-- What a manager saves when it is destroyed, a new manager of the same configuration hands out again
-- without a call of the provider, as long as it has not expired.
pub get_token_result-destroy :
    (config : TokenConfig) (store_works : Bool) (clock : ℕ → ℕ) (provider : Provider) (now : ℕ)
    (r : TokenResult) (at_ms : ℕ) (s : State)
    → config.has_store ≡ true
    → s.current_result ≡ some r
    → s.acquired_at ≡ some at_ms
    → is_expired config now s ≡ false
    → let saved = (destroy config true s).saved in
      (get_token_result config store_works clock provider saved now false initial).0 ≡ ok r
unfolding get_token_result is_expired
get_token_result-destroy config store_works clock provider now r at_ms s h c a e =
    let entry : StoreEntry = record { result = r; acquired_at = at_ms } in
    let t = (load_from_store config now (some entry) initial).1 in
    let (loaded, kept, at_kept) = load_from_store_lem config now entry initial in
    let same = is_expired_same config now t s (kept ∙ sym c) (at_kept ∙ sym a) in
    let kept_fresh : fresh config now t ≡ some r = rw (same ∙ e) kept in
    simp (saved-destroy config r at_ms s h c a, h, loaded, kept_fresh)

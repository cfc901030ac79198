-- ===== src/Config/Laws.antt =====
-- Which arguments src/config/mod.rs accepts.
use newghost.Prelude.{
  ℕ, ◌≤◌, ◌<◌, ◌≡◌, ◌≢◌, ◌↔◌, refl, arith, Bool, true, false, List, [], ◌∷◌, ltb,
}
use newghost.Prelude.Outcome.{ok, err, panic, ◌>>=◌, reject_if}
use newghost.Net.Blank.{is_blank}
use newghost.Auth.Laws.{bytes_eq_iff}
use newghost.Config.Defs.{
  LimitsConfig, TimeoutConfig, BurstDetectionConfig, ConfigError, invalid_shutdown_ordering,
  ModeArgs, client_args, server_args, orig_dst_live_args, CliArgs, Checked, wss_scheme,
  validate_non_empty_token, validate_positive, validate_limits, validate_timeouts, validate_burst,
  runtime_mode_of, try_from,
}

abbrev pub accepts : {A : Type 0} → Checked A → Bool
accepts (ok a) = true
accepts (err e) = false
accepts panic = false

abbrev pub ValidLimits : LimitsConfig → Type 0
ValidLimits l = (0 < l.pending_intents) × (0 < l.sessions)

abbrev pub ValidTimeouts : TimeoutConfig → Type 0
ValidTimeouts t =
    (0 < t.iroh_connect_timeout)
    × (0 < t.wss_connect_timeout)
    × (0 < t.socks5_total_timeout)
    × (0 < t.graceful_timeout)
    × (0 < t.force_kill_after)

abbrev pub ValidBurst : BurstDetectionConfig → Type 0
ValidBurst b =
    (0 < b.alert_threshold)
    × (0 < b.alert_window)
    × (0 < b.min_log_interval)
    × (0 < b.ring_capacity)

abbrev pub ValidMode : ModeArgs → Type 0
ValidMode (client_args listen url anchor name) = url.scheme ≡ wss_scheme
ValidMode (server_args listen cert key) = (cert ≢ []) × (key ≢ [])
ValidMode (orig_dst_live_args listener capacity operator baseline socket_mode) =
    (0 < capacity) × (0 < operator)

-- A chain accepts exactly where its first step and the rest accept.
accepts->>= :
    {A B : Type 0} (first : Checked A) (next : A → Checked B) (P Q : Type 0)
    → (accepts first ≡ true) ↔ P
    → ((a : A) → first ≡ ok a → (accepts (next a) ≡ true) ↔ Q)
    → (accepts (first >>= next) ≡ true) ↔ (P × Q)
accepts->>= (ok a) next P Q one rest =
    (λ h. (one.0 refl, (rest a refl).0 h), λ both. (rest a refl).1 both.1)
accepts->>= (err e) next P Q one rest = (λ h. cc h, λ both. one.1 both.0)
accepts->>= panic next P Q one rest = (λ h. cc h, λ both. one.1 both.0)

limits_iff : (l : LimitsConfig) → (accepts (validate_limits l) ≡ true) ↔ ValidLimits l
unfolding validate_limits validate_positive
limits_iff l = ground arith

timeouts_iff : (t : TimeoutConfig) → (accepts (validate_timeouts t) ≡ true) ↔ ValidTimeouts t
unfolding validate_timeouts validate_positive
timeouts_iff t = ground arith

burst_iff : (b : BurstDetectionConfig) → (accepts (validate_burst b) ≡ true) ↔ ValidBurst b
unfolding validate_burst validate_positive
burst_iff b = ground arith

mode_iff : (m : ModeArgs) → (accepts (runtime_mode_of m) ≡ true) ↔ ValidMode m
unfolding runtime_mode_of validate_positive
mode_iff (client_args listen url anchor name) = ground (arith, bytes_eq_iff url.scheme wss_scheme)
mode_iff (server_args listen [] key) = ground arith
mode_iff (server_args listen (c ∷ cert) []) = ground arith
mode_iff (server_args listen (c ∷ cert) (k ∷ key)) = (λ h. (λ p. cc p, λ p. cc p), λ h. refl)
mode_iff (orig_dst_live_args listener capacity operator baseline socket_mode) = ground arith

accepts-last :
    {A B : Type 0} (first : Checked A) (value : A → B) (P : Type 0)
    → (accepts first ≡ true) ↔ P
    → (accepts (first >>= (λ a. ok (value a))) ≡ true) ↔ P
accepts-last (ok a) value P one = one
accepts-last (err e) value P one = one
accepts-last panic value P one = one

token_iff :
    (token : List ℕ) → (accepts (validate_non_empty_token token) ≡ true) ↔ (is_blank token ≡ false)
unfolding validate_non_empty_token
token_iff token = ground arith

order_iff : (a b : ℕ) (e : ConfigError) → (accepts (reject_if (ltb b a) e) ≡ true) ↔ (a ≤ b)
order_iff a b e = ground arith

abbrev pub Valid : CliArgs → Type 0
Valid v =
    (is_blank v.token ≡ false)
    × (ValidLimits v.limit_args
        × (ValidTimeouts v.timeout_args
            × (ValidBurst v.burst_args
                × ((v.timeout_args.graceful_timeout ≤ v.timeout_args.force_kill_after)
                    × ValidMode v.mode))))

-- The arguments are accepted exactly where the token is not blank, every number that has to be is
-- positive, the graceful timeout does not exceed the one after which the process is killed, and the
-- mode is sound: a client's URL has the scheme `wss`, both TLS paths of a server are there, and the
-- live mode has a capacity and an operator.
pub try_from_iff : (v : CliArgs) → (accepts (try_from v) ≡ true) ↔ Valid v
unfolding try_from
try_from_iff v = accepts->>= (validate_non_empty_token v.token) _ _ _ (token_iff v.token) (λ _ _.
    accepts->>= (validate_limits v.limit_args) _ _ _ (limits_iff v.limit_args) (λ _ _.
      accepts->>= (validate_timeouts v.timeout_args) _ _ _ (timeouts_iff v.timeout_args) (λ _ _.
        accepts->>= (validate_burst v.burst_args) _ _ _ (burst_iff v.burst_args) (λ _ _.
          accepts->>=
            (reject_if (ltb v.timeout_args.force_kill_after v.timeout_args.graceful_timeout)
              invalid_shutdown_ordering)
            _ _ _ (order_iff _ _ _)
            (λ _ _. accepts-last (runtime_mode_of v.mode) _ _ (mode_iff v.mode))))))

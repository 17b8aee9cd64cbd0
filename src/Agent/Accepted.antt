-- ===== src/Agent/Accepted.antt =====
-- agent/cmd/cma/main.go: what the options satisfy with which the agent listens.
use codex_ha_monitor.Prelude.{
  ℕ, ◌≤◌, ◌*◌, String, Bool, true, false, ◌||◌, not, ltb_int64, ◌=?=◌, if◌then◌else◌, ℤ, pos,
  negsuc, Result, ok, err, ◌≡◌, ◌≢◌, ◌∙◌, refl, ap, subst, arith, eq_iff,
}
use codex_ha_monitor.Monitor.State.{Config, positive_or, second}
use codex_ha_monitor.Monitor.Account.{failure_threshold}
use codex_ha_monitor.Monitor.Usage.{usage_history_days}
use codex_ha_monitor.Monitor.Loop.{request_timeout}
use codex_ha_monitor.Agent.{
  Options, chosen_port, check_options, monitor_config, Start, prints_version, stops, listens,
  configured, checked, with_port, start_agent,
}

-- Options that pass the checks, with the port and the configuration that they make.
pub record IsAccepted (o : Options) (port : ℤ) (cfg : Config) : Type 0 where
  pub in_range : (n : ℕ) × (port ≡ pos n) × (1 ≤ n) × (n ≤ 65535)
  pub with_token : o.token ≢ ""
  pub own_threshold : failure_threshold cfg ≡ o.failure_threshold
  pub own_timeout : (n : ℕ) × (o.request_timeout ≡ pos n) × (1 ≤ n) × (request_timeout cfg ≡ n)
  pub a_year : (n : ℕ) × (o.usage_history_days ≡ pos n) × (n ≤ 365) × (usage_history_days cfg ≡ n)

port-range :
    (port : ℤ)
    → (ltb_int64 port (pos 1) || ltb_int64 (pos 65535) port) ≡ false
    → (n : ℕ) × (port ≡ pos n) × (1 ≤ n) × (n ≤ 65535)
port-range (pos n) h = (n, refl, ground arith, ground arith)
port-range (negsuc n) h = absurd (ground arith)

timeout-range :
    (t : ℤ) (cfg : Config)
    → cfg.app_server_request_timeout ≡ t
    → not (ltb_int64 (pos 0) t) ≡ false
    → (n : ℕ) × (t ≡ pos n) × (1 ≤ n) × (request_timeout cfg ≡ n)
timeout-range (pos n) cfg same h =
    let positive : 1 ≤ n = ground arith in
    (n, refl, positive, ap (λ t. positive_or t (10 * second)) same ∙ ground arith)
timeout-range (negsuc n) cfg same h = absurd (ground arith)

abbrev days_or_default : ℤ → ℕ
days_or_default d = elim d [ pos n ↦ n | negsuc n ↦ 90 ]

days-range :
    (d : ℤ) (cfg : Config)
    → cfg.usage_history_days ≡ d
    → (ltb_int64 d (pos 0) || ltb_int64 (pos 365) d) ≡ false
    → (n : ℕ) × (d ≡ pos n) × (n ≤ 365) × (usage_history_days cfg ≡ n)
unfolding usage_history_days
days-range (pos n) cfg same h = (n, refl, ground arith, ap days_or_default same)
days-range (negsuc n) cfg same h = absurd (ground arith)

abbrev threshold_or_default : ℤ → ℤ
threshold_or_default t = if ltb_int64 (pos 0) t then t else pos 2

threshold_positive : (t : ℤ) → ltb_int64 t (pos 1) ≡ false → threshold_or_default t ≡ t
threshold_positive (pos n) h =
    let positive : ltb_int64 (pos 0) (pos n) ≡ true = ground arith in rw positive refl
threshold_positive (negsuc n) h = absurd (ground arith)

threshold-own :
    (t : ℤ) (cfg : Config)
    → cfg.app_server_failure_threshold ≡ t
    → ltb_int64 t (pos 1) ≡ false
    → failure_threshold cfg ≡ t
unfolding failure_threshold
threshold-own t cfg same h = ap threshold_or_default same ∙ threshold_positive t h

-- The five tests of `check_options`, where they let a port through.
record Passes (o : Options) (port : ℤ) : Type 0 where
  port_test : (ltb_int64 port (pos 1) || ltb_int64 (pos 65535) port) ≡ false
  timeout_test : not (ltb_int64 (pos 0) o.request_timeout) ≡ false
  threshold_test : ltb_int64 o.failure_threshold (pos 1) ≡ false
  days_test :
      (ltb_int64 o.usage_history_days (pos 0) || ltb_int64 (pos 365) o.usage_history_days) ≡ false
  token_test : (o.token =?= "") ≡ false

-- A check that fails lets nothing through.
refused-if :
    (b : Bool) (e : String) (rest : Result String ℤ) (port : ℤ)
    → (if b then err e else rest) ≡ ok port
    → (b ≡ false) × (rest ≡ ok port)
refused-if true e rest port h = absurd (ground arith)
refused-if false e rest port h = (refl, h)

check_options-Passes :
    (o : Options) (port q : ℤ) → check_options o port ≡ ok q → Passes o port × (port ≡ q)
unfolding check_options
check_options-Passes o port q h =
    let (a, h1) = refused-if _ _ _ q h in
    let (b, h2) = refused-if _ _ _ q h1 in
    let (c, h3) = refused-if _ _ _ q h2 in
    let (d, h4) = refused-if _ _ _ q h3 in
    let (e, h5) = refused-if _ _ _ q h4 in
    (
      record { port_test = a; timeout_test = b; threshold_test = c; days_test = d; token_test = e },
      ground arith,
    )

Passes-IsAccepted :
    (o : Options) (port : ℤ) (id : String) → Passes o port → IsAccepted o port (monitor_config o id)
unfolding monitor_config
Passes-IsAccepted o port id p = record {
  in_range = port-range port p.port_test;
  with_token =
      λ e. let t : (o.token =?= "") ≡ false = p.token_test in ground (arith, eq_iff o.token "");
  own_threshold = threshold-own o.failure_threshold (monitor_config o id) refl p.threshold_test;
  own_timeout = timeout-range o.request_timeout (monitor_config o id) refl p.timeout_test;
  a_year = days-range o.usage_history_days (monitor_config o id) refl p.days_test;
}

-- What a start listens with, if it listens.
abbrev Listens : Options → Start → Type 0
Listens o (listens port cfg) = IsAccepted o port cfg
Listens o prints_version = Unit
Listens o (stops e) = Unit

configured-Listens :
    (o : Options) (port : ℤ) (id : Result String String)
    → Passes o port
    → Listens o (configured o port id)
configured-Listens o port (err e) p = tt
configured-Listens o port (ok id) p = Passes-IsAccepted o port id p

checked-Listens :
    (o : Options) (id : Result String String) (port : ℤ) (r : Result String ℤ)
    → check_options o port ≡ r
    → Listens o (checked o id r)
checked-Listens o id port (err e) h = tt
checked-Listens o id port (ok q) h =
    let (passes, same) = check_options-Passes o port q h in
    configured-Listens o q id (subst (Passes o) same passes)

with_port-Listens :
    (o : Options) (id : Result String String) (r : Result String ℤ) → Listens o (with_port o id r)
with_port-Listens o id (err e) = tt
with_port-Listens o id (ok port) = checked-Listens o id port (check_options o port) refl

Listens-if :
    (o : Options) (b : Bool) (s t : Start)
    → Listens o s
    → Listens o t
    → Listens o (if b then s else t)
Listens-if o true s t p q = p
Listens-if o false s t p q = q

start-Listens : (o : Options) (id : Result String String) → Listens o (start_agent o id)
unfolding start_agent
start-Listens o id =
    Listens-if o o.show_version prints_version _ tt
      (with_port-Listens o id (chosen_port o.port o.argument))

-- If the agent comes to listen, then with a token, at a port between 1 and 65535, and under its own
-- options: the failure threshold, the time-out of requests, which is positive, and the days of usage
-- history, at most 365, are those that were asked for, and no default of the monitor takes their place.
pub start_agent-IsAccepted :
    (o : Options) (id : Result String String) (port : ℤ) (cfg : Config)
    → start_agent o id ≡ listens port cfg
    → IsAccepted o port cfg
start_agent-IsAccepted o id port cfg h = subst (Listens o) h (start-Listens o id)

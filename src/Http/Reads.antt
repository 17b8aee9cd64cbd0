-- ===== src/Http/Reads.antt =====
-- The handlers of agent/internal/httpapi/server.go that only read the state.
use codex_ha_monitor.Prelude.{
  ℕ, String, ◌||◌, ◌&&◌, [], ◌∷◌, length, take, ltb, leb, ◌=?=◌, if◌then◌else◌, Option, none, some,
  ℤ, pos, negsuc,
}
use codex_ha_monitor.Text.Parse.{atoi}
use codex_ha_monitor.Json.{JsonMap}
use codex_ha_monitor.Monitor.State.{Monitor, Env}
use codex_ha_monitor.Monitor.Requests.{pending_request_snapshot}
use codex_ha_monitor.Monitor.Stream.{compact_usage}
use codex_ha_monitor.Monitor.Usage.{usage}
use codex_ha_monitor.Http.Messages.{
  HttpRequest, Response, status_page, health, readiness, version_info, status_json, thread_list,
  usage_json, rate_limits_json, usage_unavailable, rate_limits_unavailable, request_list,
  write_json, http_error,
}

-- `handleRoot`; `http.NotFound` is Go's own answer.
unfoldable pub handle_root : HttpRequest → Response
handle_root r =
    if r.path =?= "/"
    then record {
      status = 200;
      headers = ("Content-Type", "text/html; charset=utf-8") ∷ [];
      body = status_page;
    }
    else http_error "404 page not found" 404

unfoldable pub handle_health : Monitor → Response
handle_health m = write_json (health m.snapshot.agent.version m.snapshot.agent.uptime_seconds)

unfoldable pub handle_ready : Monitor → Response
handle_ready m =
    let filled = ltb 0 (length m.snapshot.threads) in
    let connection = m.snapshot.codex.connection_state in
    write_json (
      readiness (filled || connection =?= "connected") connection filled
        m.snapshot.hooks.received_events)

unfoldable pub handle_version : Monitor → Response
handle_version m =
    let s = m.snapshot in
    write_json (version_info s.schema_version s.installation_id s.agent s.codex_cli s.app_server)

unfoldable pub handle_status : Monitor → Response
unfolding compact_usage
handle_status m =
    write_json
      (status_json (record m.snapshot { threads = []; usage = compact_usage m.snapshot.usage }))

abbrev limit_or : ℕ → Option ℤ → ℕ
limit_or fallback (some (pos n)) = if leb 1 n && leb n 200 then n else fallback
limit_or fallback _ = fallback

-- The `limit` of a query.
abbrev pub thread_limit : String → ℕ
thread_limit value = if value =?= "" then 100 else limit_or 100 (atoi value)

unfoldable pub handle_threads : HttpRequest → Monitor → Response
handle_threads r m =
    let limit = thread_limit (r.query "limit") in
    let threads = m.snapshot.threads in
    write_json (
      thread_list m.snapshot.schema_version m.snapshot.generated_at
        (if ltb limit (length threads) then take limit threads else threads))

-- The `days` of a query: -1 without one, and `none` for one that is refused.
abbrev in_a_year : Option ℤ → Option ℤ
in_a_year (some (pos n)) = if ltb 365 n then none else some (pos n)
in_a_year _ = none

abbrev pub usage_days : String → Option ℤ
usage_days value = if value =?= "" then some (negsuc 0) else in_a_year (atoi value)

abbrev pub usage_response : JsonMap → Response
usage_response none = write_json usage_unavailable
usage_response (some members) = write_json (usage_json (some members))

unfoldable pub handle_usage : HttpRequest → Monitor → Response
unfolding usage
handle_usage r m = elim (usage_days (r.query "days")) [
  | none ↦ http_error "days must be an integer between 0 and 365" 400
  | some days ↦ usage_response (usage m days)
]

abbrev pub rate_limits_response : JsonMap → Response
rate_limits_response none = write_json rate_limits_unavailable
rate_limits_response (some members) = write_json (rate_limits_json (some members))

unfoldable pub handle_rate_limits : Monitor → Response
handle_rate_limits m = rate_limits_response m.snapshot.rate_limits

unfoldable pub handle_requests : Env → Monitor → Response
unfolding pending_request_snapshot
handle_requests env m = write_json (request_list (pending_request_snapshot env m))

-- ===== src/Http/Server.antt =====
-- agent/internal/httpapi/server.go: what stands before the handlers, and which handler a path has.
use codex_ha_monitor.Prelude.{
  ℕ, String, Bool, true, false, ◌&&◌, ◌||◌, not, List, [], ◌∷◌, ◌++◌, ◌==◌, ◌=?=◌, if◌then◌else◌,
  lookup, length, drop, Option, none, some,
}
use codex_ha_monitor.Text.{codes, has_prefix}
use codex_ha_monitor.Monitor.State.{Monitor}
use codex_ha_monitor.Http.Messages.{
  HttpRequest, Response, World, Served, reply_with, http_error, only_status,
}
use codex_ha_monitor.Http.Reads.{
  handle_root, handle_health, handle_ready, handle_version, handle_status, handle_threads,
  handle_usage, handle_rate_limits, handle_requests,
}
use codex_ha_monitor.Http.Actions.{
  handle_approve, handle_reject, handle_submit_input, handle_interrupt, handle_codex_hook,
}
use codex_ha_monitor.Http.Stream.{handle_events}

pub data Route : Type 0 where
  root health ready version status threads usage rate_limits events requests : Route
  approve reject submit_input interrupt codex_hook : Route

-- The patterns of `New`, but "/", which takes every other path.
abbrev pub patterns : List (String × Route)
patterns =
    ("/healthz", health)
    ∷ ("/readyz", ready)
    ∷ ("/api/v1/version", version)
    ∷ ("/api/v1/status", status)
    ∷ ("/api/v1/threads", threads)
    ∷ ("/api/v1/usage", usage)
    ∷ ("/api/v1/rate-limits", rate_limits)
    ∷ ("/api/v1/events", events)
    ∷ ("/api/v1/requests", requests)
    ∷ ("/api/v1/actions/approve", approve)
    ∷ ("/api/v1/actions/reject", reject)
    ∷ ("/api/v1/actions/submit-input", submit_input)
    ∷ ("/api/v1/actions/interrupt", interrupt)
    ∷ ("/api/v1/hooks/codex", codex_hook)
    ∷ []

abbrev or_root : Option Route → Route
or_root none = root
or_root (some r) = r

unfoldable pub route : String → Route
route path = or_root (lookup path patterns)

-- The handlers.
unfoldable pub handle : Route → World → HttpRequest → Monitor → Served
unfolding handle_root handle_health handle_ready handle_version handle_status handle_threads
    handle_usage handle_rate_limits handle_requests handle_events handle_approve handle_reject
    handle_submit_input handle_interrupt handle_codex_hook
handle root w r m = reply_with m (handle_root r)
handle health w r m = reply_with m (handle_health m)
handle ready w r m = reply_with m (handle_ready m)
handle version w r m = reply_with m (handle_version m)
handle status w r m = reply_with m (handle_status m)
handle threads w r m = reply_with m (handle_threads r m)
handle usage w r m = reply_with m (handle_usage r m)
handle rate_limits w r m = reply_with m (handle_rate_limits m)
handle events w r m = handle_events w r m
handle requests w r m = reply_with m (handle_requests w.env m)
handle approve w r m = handle_approve w r m
handle reject w r m = handle_reject w r m
handle submit_input w r m = handle_submit_input w r m
handle interrupt w r m = handle_interrupt w r m
handle codex_hook w r m = handle_codex_hook w r m

-- The `ServeMux`.
abbrev pub after_redirect : Option Response → World → HttpRequest → Monitor → Served
after_redirect (some response) w r m = reply_with m response
after_redirect none w r m = handle (route r.path) w r m

unfoldable pub serve_mux : World → HttpRequest → Monitor → Served
unfolding route handle
serve_mux w r m = after_redirect (w.redirect r.path) w r m

abbrev pub bearer : List ℕ
bearer = codes "Bearer "

-- `strings.TrimPrefix`
unfoldable pub trim_prefix : List ℕ → List ℕ → List ℕ
unfolding has_prefix
trim_prefix p s = if has_prefix p s then drop (length p) s else s

unfoldable pub same_codes : List ℕ → List ℕ → Bool
same_codes [] [] = true
same_codes (c ∷ s) (d ∷ t) = c == d && same_codes s t
same_codes _ _ = false

-- The test of `authenticate` that refuses a header.
unfoldable pub is_unauthorized : List ℕ → List ℕ → Bool
unfolding trim_prefix same_codes has_prefix
is_unauthorized token header =
    let provided = trim_prefix bearer header in
    same_codes provided header || not (same_codes provided token)

abbrev pub unauthorized : Response
unauthorized = record (http_error "unauthorized" 401) {
  headers = ("WWW-Authenticate", "Bearer realm=\"codex-monitor-agent\"") ∷ [];
}

-- `authenticate`
unfoldable pub authenticate : List ℕ → World → HttpRequest → Monitor → Served
unfolding is_unauthorized serve_mux
authenticate token w r m =
    if r.path =?= "/"
    then serve_mux w r m
    else if is_unauthorized token r.authorization
    then reply_with m unauthorized
    else serve_mux w r m

-- The headers that `cors` sets on every answer.
abbrev pub cors_headers : List (String × String)
cors_headers =
    ("Access-Control-Allow-Origin", "*")
    ∷ ("Access-Control-Allow-Methods", "GET, HEAD, POST, OPTIONS")
    ∷ ("Access-Control-Allow-Headers", "Authorization, Content-Type")
    ∷ []

abbrev pub with_cors : Served → Served
with_cors served = record served {
  response = record served.response { headers = cors_headers ++ served.response.headers };
}

abbrev pub is_post_path : String → Bool
is_post_path path =
    (path =?= "/api/v1/hooks/codex") || has_prefix (codes "/api/v1/actions/") (codes path)

-- The handler of the server: `cors`, and what it lets through.
unfoldable pub serve : List ℕ → World → HttpRequest → Monitor → Served
unfolding has_prefix authenticate
serve token w r m = with_cors (
    if r.method =?= "OPTIONS"
    then reply_with m (only_status 204)
    else if (r.method =?= "POST") && is_post_path r.path
    then authenticate token w r m
    else if not (r.method =?= "GET") && not (r.method =?= "HEAD")
    then reply_with m (only_status 405)
    else authenticate token w r m)

-- How `ListenAndServe` ends: the context's end and what `Shutdown` says, or the server's own error,
-- where `none` is `ErrServerClosed`.
pub data ServerEnd : Type 0 where
  shut_down failed : Option String → ServerEnd

abbrev pub listen_and_serve : ServerEnd → Option String
listen_and_serve (shut_down e) = e
listen_and_serve (failed none) = none
listen_and_serve (failed (some e)) = some e

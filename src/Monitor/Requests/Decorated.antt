-- ===== src/Monitor/Requests/Decorated.antt =====
-- `decoratePendingRequestsLocked` of agent/internal/monitor/events.go: how a pending request shows
-- on its thread.
use codex_ha_monitor.Prelude.{
  String, List, [], ◌∷◌, All, Option, some, none, ◌=?=◌, if◌then◌else◌, ◌≡◌, ◌⊎◌, inl, inr, ◌∙◌, ap,
  sym, refl, arith, eq_iff, String-cases, Option-cases, subst,
}
use codex_ha_monitor.Model.Types.{Thread, PendingRequest}
use codex_ha_monitor.Merge.Reads.{find_last}
use codex_ha_monitor.Monitor.State.{PendingControl, Monitor, Env}
use codex_ha_monitor.Monitor.Upsert.{Index, index_threads, upsert}
use codex_ha_monitor.Monitor.Upsert.Laws.{
  IsSynced, index_threads-IsSynced, find_last-upsert, upsert-IsSynced, current,
}
use codex_ha_monitor.Monitor.Requests.{
  decorate, decorate_all, decorate_pending_requests, request_thread,
}

-- A request that asks for approval or for input, as all that are recorded do.
abbrev pub IsAttention : PendingRequest → Type 0
IsAttention r = (r.request_type ≡ "approval") ⊎ (r.request_type ≡ "input")

abbrev pub AllAttention : List (String × PendingControl) → Type 0
AllAttention = All (λ e. IsAttention e.1.request)

-- The request of a thread that is visited last.
unfoldable pub last_request : String → List (String × PendingControl) → Option PendingRequest
last_request k [] = none
last_request k ((key, p) ∷ rest) = elim (last_request k rest) [
  | some r ↦ some r
  | none ↦ if p.request.thread_id =?= k then some p.request else none
]

-- A thread with the request that it shows.
abbrev pub shown : Option PendingRequest → Option Thread → Option Thread
shown none t = t
shown (some r) t = some (decorate r (current (request_thread r) t))

decorate_keeps : (r : PendingRequest) (t : Thread) → (decorate r t).id ≡ t.id
unfolding decorate
decorate_keeps r t = refl

-- A later request hides an earlier one.
decorate-decorate :
    (r p : PendingRequest) (t : Thread) → IsAttention r → decorate r (decorate p t) ≡ decorate r t
unfolding decorate
decorate-decorate r p t (inl e) = ground (arith, eq_iff r.request_type "approval")
decorate-decorate r p t (inr e) =
    ground (arith, eq_iff r.request_type "approval", eq_iff r.request_type "input")

last_request-IsAttention :
    (k : String) (entries : List (String × PendingControl)) (r : PendingRequest)
    → AllAttention entries
    → last_request k entries ≡ some r
    → IsAttention r × (r.thread_id ≡ k)
unfolding last_request
last_request-IsAttention k [] r a h = cc
last_request-IsAttention k ((key, p) ∷ rest) r (own, a) h =
    elim (Option-cases (last_request k rest)) [
      | inl gone ↦
          let here : (p.request.thread_id ≡ k) × (p.request ≡ r) =
            ground (arith, eq_iff p.request.thread_id k) in
          (
            subst IsAttention here.1 own,
            ap (λ (q : PendingRequest). q.thread_id) (sym here.1) ∙ here.0,
          )
      | inr (q, e) ↦ last_request-IsAttention k rest r a (ground arith)
    ]

shown_again :
    (q r : PendingRequest) (o : Option Thread)
    → IsAttention q
    → q.thread_id ≡ r.thread_id
    → shown (some q) (shown (some r) o) ≡ shown (some q) o
shown_again q r none a e =
    ap some (decorate-decorate q r (request_thread r) a)
    ∙ ap (λ id. some (decorate q (record (request_thread r) { id = id; root_thread_id = id })))
        (sym e)
shown_again q r (some t) a e = ap some (decorate-decorate q r t a)

one_request :
    (k : String) (r : PendingRequest) (x : Index)
    → IsSynced x
    → find_last k (upsert r.thread_id (request_thread r) (decorate r) x).threads
      ≡ shown (if r.thread_id =?= k then some r else none) (find_last k x.threads)
one_request k r x synced =
    let here =
      find_last-upsert r.thread_id (request_thread r) (decorate r) x synced refl (decorate_keeps r)
        k in
    elim (String-cases r.thread_id k) [
      | inl (b, e) ↦
          rw (here, b)
            (ap (λ j. some (decorate r (current (request_thread r) (find_last j x.threads)))) e)
      | inr (b, e) ↦ rw (here, b)
    ]

decorate_all-find_last :
    (k : String) (x : Index) (entries : List (String × PendingControl))
    → IsSynced x
    → AllAttention entries
    → find_last k (decorate_all x entries).threads
      ≡ shown (last_request k entries) (find_last k x.threads)
unfolding decorate_all last_request
decorate_all-find_last k x [] synced a = refl
decorate_all-find_last k x ((key, p) ∷ rest) synced (own, a) =
    let r = p.request in
    let y = upsert r.thread_id (request_thread r) (decorate r) x in
    let here = one_request k r x synced in
    let there =
      decorate_all-find_last k y rest
        (upsert-IsSynced r.thread_id (request_thread r) (decorate r) x synced refl
          (decorate_keeps r))
        a in
    elim (Option-cases (last_request k rest)) [
      | inl gone ↦ rw (there, gone, here)
      | inr (q, e) ↦
          let (attention, own_id) = last_request-IsAttention k rest q a e in
          elim (String-cases r.thread_id k) [
            | inl (b, same) ↦
                rw (there, e, here, b)
                  (shown_again q r (find_last k x.threads) attention (own_id ∙ sym same))
            | inr (b, other) ↦ rw (there, e, here, b)
          ]
    ]

module _ (env : Env) (m : Monitor) (ts : List Thread)
    (a : AllAttention (env.order_pending m.pending_requests)) where
  -- A thread with a pending request shows the one that Go's range over the map visits last: it waits
  -- for what that request asks, with its id, its turn and whether it can be answered. A thread that
  -- is not known is added; one with no request is left as it is.
  pub decorate_pending_requests_lem :
      (k : String)
      → find_last k (decorate_pending_requests env ts m)
        ≡ shown (last_request k (env.order_pending m.pending_requests)) (find_last k ts)
  unfolding decorate_pending_requests index_threads
  decorate_pending_requests_lem k =
      decorate_all-find_last k (index_threads ts) (env.order_pending m.pending_requests)
        (index_threads-IsSynced ts) a

-- ===== src/Tests/Http.antt =====
-- The theorems on the HTTP API, at concrete requests.
use codex_ha_monitor.Prelude.{
  ℕ, true, false, List, [], ◌∷◌, ◌++◌, map, none, ok, err, ◌≡◌, refl, arith,
}
use codex_ha_monitor.Text.{codes, format_uint}
use codex_ha_monitor.Monitor.State.{snapshot_message}
use codex_ha_monitor.Monitor.Stream.History.{activity, offer_all}
use codex_ha_monitor.Monitor.Stream.Replay.{missed, meanwhile_sent}
use codex_ha_monitor.Monitor.Control.{Outcome, decision_payload, done}
use codex_ha_monitor.Monitor.Control.Answer.{Resolution, IsOffered}
use codex_ha_monitor.Http.Messages.{ActionRequest, HttpRequest, World, stream_opened}
use codex_ha_monitor.Http.Server.{bearer, serve}
use codex_ha_monitor.Http.Access.{Rejection, serve-Rejection}
use codex_ha_monitor.Http.Answers.{approving, IsPosted, IsSettled, serve-Resolution}
use codex_ha_monitor.Http.Stream.{handle_events}
use codex_ha_monitor.Http.Resume.{handle_events-resumed}
use codex_ha_monitor.Tests.{env, busy}
use codex_ha_monitor.Tests.Runs.{busy-HistoryIsValid}

abbrev pub world : World
world = record {
  env = env;
  now = 9;
  reply = none;
  before = λ m. m;
  meanwhile = meanwhile_sent [];
  channel = 10;
  can_flush = true;
  redirect = λ path. none;
  print_event = λ e. "{}";
  print_snapshot = λ s. "{}";
}

abbrev secret : List ℕ
secret = codes "s3cret"

abbrev approval : ActionRequest
approval = record {
  request_id = "req-1";
  thread_id = "b";
  turn_id = "t1";
  for_session = false;
  cancel_turn = false;
  answer_text = "";
  answers = [];
}

abbrev approve_request : HttpRequest
approve_request = record {
  method = "POST";
  path = "/api/v1/actions/approve";
  query = λ name. "";
  authorization = bearer ++ secret;
  last_event_id = "1";
  action_json = ok approval;
  hook_json = err "no hook";
}

abbrev wrong_request : HttpRequest
wrong_request = record approve_request { authorization = bearer ++ codes "guess" }

serve-Rejection_example : Rejection world wrong_request busy (serve secret world wrong_request busy)
serve-Rejection_example = serve-Rejection secret world wrong_request busy (λ e. cc)

abbrev approve_IsPosted : IsPosted secret world approve_request "/api/v1/actions/approve" approval
approve_IsPosted = record {
  posted = refl;
  at_path = refl;
  known = refl;
  with_token = refl;
  carries = refl;
}

serve-Resolution_example :
    (outcome : Outcome) × Resolution
      (meanwhile_sent [])
      busy
      "approval"
      (IsOffered "accept")
      (decision_payload "accept")
      (done "approve" "req-1" "b" "t1")
      none
      outcome
    × IsSettled (serve secret world approve_request busy) outcome
serve-Resolution_example =
    serve-Resolution secret world approve_request busy approving approval approve_IsPosted

handle_events-resumed_example :
    ((handle_events world approve_request busy).response.body ≡ stream_opened)
    × ((handle_events world approve_request busy).monitor ≡ record busy {
      subs =
          record {
            number = 10;
            buffer = (map activity (missed 1 busy) ++ []) ++ snapshot_message busy.snapshot ∷ [];
          }
          ∷ map (offer_all []) busy.subs;
    })
unfolding format_uint
handle_events-resumed_example =
    handle_events-resumed world approve_request busy 1 [] busy-HistoryIsValid (omega arith) refl
      refl (omega arith) refl

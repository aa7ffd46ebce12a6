-- ===== src/Alert/Examples.antt =====
-- The theorems on alerts at one alert.
use vigil_rs.Prelude.{
  ℕ, zero, suc, ◌≡◌, refl, false, none, some, codes, List, [], ◌∷◌, arith, lookup, contains,
  starts_with,
}
use vigil_rs.Plan.{AlertConfig, merge, webhook}
use vigil_rs.Alert.Status.{up, down}
use vigil_rs.Alert.Sender.{AlertSender}
use vigil_rs.Alert.History.{CheckEvent, handle_all, due_all, handle_all-due}
use vigil_rs.Alert.Delivery.{
  Answer, server_error, success, http_send, backoff, max_attempts, resolve,
}
use vigil_rs.Alert.Attempts.{IsRetried, http_send-IsRetried}
use vigil_rs.Alert.Format.{
  Context, Fields, text, render_error, zero_time, format_alertmanager, format_webhook,
  format_payload,
}
use vigil_rs.Alert.Payloads.{get, fields, first_alert, format_alertmanager-resolves}

abbrev pager : AlertConfig
pager = record {
  override_mode = merge;
  url = "http://pager";
  format = webhook;
  headers = [];
  labels = [];
  send_info_fields = [];
  on_check = "ping" ∷ [];
  tls_insecure = false;
  tls_ca = none;
  proxy = none;
  proxy_ca = none;
  no_proxy = none;
  retry_attempts = none;
  retry_backoff = [];
  body_template = none;
}

abbrev sender : AlertSender
sender = record {
  alerts = record { name = "pager"; config = pager } ∷ [];
  state = [];
  queue = [];
  max_age_secs = 60;
  queue_depth = 8;
}

-- a check that is up, then down for two reports, then up
abbrev reports : List CheckEvent
reports =
    record { check = "ping"; status = up }
    ∷ record { check = "ping"; status = down }
    ∷ record { check = "ping"; status = down }
    ∷ record { check = "ping"; status = up }
    ∷ []

handle_all-due_example :
    (handle_all reports sender).0 ≡ [] ∷ ("pager" ∷ []) ∷ [] ∷ ("pager" ∷ []) ∷ []
unfolding due_all lookup contains
handle_all-due_example = handle_all-due [] reports sender (λ check. refl) (omega arith)

-- a first attempt that fails, and a second one that gets through
abbrev answers : ℕ → Answer
answers zero = server_error
answers (suc n) = success

http_send-IsRetried_example :
    IsRetried answers (backoff []) 0 (max_attempts none) (http_send (λ name. none) answers pager)
unfolding resolve starts_with
http_send-IsRetried_example = http_send-IsRetried (λ name. none) answers pager refl

abbrev at_failure : Context
at_failure = record {
  env = λ name. none;
  now = codes "2026-01-01T00:00:00Z";
  time_ns = codes "1";
  uuid = codes "a";
  version = codes "1.0.0";
}

abbrev at_recovery : Context
at_recovery = record at_failure { now = codes "2026-01-01T00:01:00Z" }

format_alertmanager-resolves_example :
    let fired : Fields = first_alert (format_alertmanager at_failure "ping" down pager) in
    let over : Fields = first_alert (format_alertmanager at_recovery "ping" up pager) in
    (get "labels" fired ≡ get "labels" over)
    × (get "alertname" (fields (get "labels" over)) ≡ some (text (codes "ping")))
    × (get "startsAt" fired ≡ some (text at_failure.now))
    × (get "endsAt" fired ≡ some (text zero_time))
    × (get "endsAt" over ≡ some (text at_recovery.now))
format_alertmanager-resolves_example =
    format_alertmanager-resolves at_failure at_recovery "ping" pager refl

-- a template that does not render gives the webhook's own payload
fallback_test :
    format_payload
      (λ template vars labels info. render_error)
      (λ t. none)
      at_failure
      "ping"
      down
      (record pager { body_template = some "{{ check }" })
    ≡ format_webhook at_failure "ping" down pager
unfolding format_payload
fallback_test = refl

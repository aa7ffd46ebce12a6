-- ===== src/Alert/Format.antt =====
-- The payloads of crates/vigild/src/alert/format/mod.rs. The environment, the time, the new id, the package's
-- version and the template engine are arguments; an object is the list of its fields.
use vigil_rs.Prelude.{
  ℕ, Option, none, some, [], ◌∷◌, ◌++◌, String, Text, Map, insert, codes, if◌then◌else◌,
}
use vigil_rs.Plan.{AlertConfig, webhook, alertmanager, cloud_events, otlp_logs}
use vigil_rs.Alert.Status.{CheckStatus, is_down}
use vigil_rs.Alert.Delivery.{resolve}

-- `serde_json::Value`, as far as payloads use it
mutual
  pub data Value : Type 0 where
    number : ℕ → Value
    text : Text → Value
    array : Values → Value
    object : Fields → Value

  pub data Values : Type 0 where
    no_values : Values
    value : Value → Values → Values

  pub data Fields : Type 0 where
    no_fields : Fields
    field : String → Value → Fields → Fields

-- What a template comes to: the text, or the step that failed.
pub data Rendered : Type 0 where
  parse_error load_error render_error : Rendered
  rendered : Text → Rendered

-- the environment, and what the source asks for as it formats
pub record Context : Type 0 where
  pub env : Text → Option Text
  pub now : Text
  pub time_ns : Text
  pub uuid : Text
  pub version : Text

unfoldable pub resolved_map : (Text → Option Text) → Map String → Map Text
unfolding resolve
resolved_map env [] = []
resolved_map env ((k, v) ∷ rest) = (k, resolve env (codes v)) ∷ resolved_map env rest

unfoldable pub fields_of : Map Text → Fields
fields_of [] = no_fields
fields_of ((k, v) ∷ rest) = field k (text v) (fields_of rest)

unfoldable pub resolved_json : (Text → Option Text) → Map String → Value
unfolding fields_of resolved_map
resolved_json env map = object (fields_of (resolved_map env map))

unfoldable pub status_str : CheckStatus → Text
status_str status = if is_down status then codes "down" else codes "up"

unfoldable pub format_webhook : Context → String → CheckStatus → AlertConfig → Value
unfolding status_str resolved_json
format_webhook c check status cfg = object (
    field "check" (text (codes check)) (
      field "status" (text (status_str status)) (
        field "timestamp" (text c.now) (
          field "labels" (resolved_json c.env cfg.labels)
            (field "info" (resolved_json c.env cfg.send_info_fields) no_fields)))))

abbrev pub zero_time : Text
zero_time = codes "0001-01-01T00:00:00Z"

unfoldable pub alert_labels : Context → String → AlertConfig → Map Text
unfolding resolved_map insert
alert_labels c check cfg =
    insert "check" (codes check) (insert "alertname" (codes check) (resolved_map c.env cfg.labels))

unfoldable pub format_alertmanager : Context → String → CheckStatus → AlertConfig → Value
unfolding alert_labels fields_of resolved_json
format_alertmanager c check status cfg = array (
    value
      (object (
        field "labels" (object (fields_of (alert_labels c check cfg))) (
          field "annotations" (resolved_json c.env cfg.send_info_fields) (
            field "startsAt" (text (if is_down status then c.now else zero_time))
              (field "endsAt" (text (if is_down status then zero_time else c.now)) no_fields)))))
      no_values)

unfoldable pub format_cloudevents : Context → String → CheckStatus → AlertConfig → Value
unfolding status_str resolved_json
format_cloudevents c check status cfg = object (
    field "specversion" (text (codes "1.0")) (
      field "id" (text c.uuid) (
        field "source" (text (codes "vigild")) (
          field "type"
            (text (
              if is_down status
              then codes "io.vigil.check.failed"
              else codes "io.vigil.check.recovered"))
            (field "time" (text c.now) (
              field "datacontenttype" (text (codes "application/json")) (
                field "data"
                  (object (
                    field "check" (text (codes check)) (
                      field "status" (text (status_str status)) (
                        field "labels" (resolved_json c.env cfg.labels)
                          (field "info" (resolved_json c.env cfg.send_info_fields) no_fields)))))
                  no_fields)))))))

string_value : Text → Value
string_value t = object (field "stringValue" (text t) no_fields)

attribute : String → Text → Value
unfolding string_value
attribute k t = object (field "key" (text (codes k)) (field "value" (string_value t) no_fields))

attributes_of : Map Text → Values → Values
unfolding attribute
attributes_of [] rest = rest
attributes_of ((k, v) ∷ more) rest = value (attribute k v) (attributes_of more rest)

one : Value → Value
one v = array (value v no_values)

unfoldable pub otlp_attributes : Context → String → CheckStatus → AlertConfig → Values
unfolding attribute attributes_of status_str resolved_map
otlp_attributes c check status cfg = value (attribute "check.name" (codes check)) (
    value (attribute "check.status" (status_str status)) (
      attributes_of (resolved_map c.env cfg.labels)
        (attributes_of (resolved_map c.env cfg.send_info_fields) no_values)))

unfoldable pub log_record : Context → String → CheckStatus → AlertConfig → Value
unfolding otlp_attributes string_value
log_record c check status cfg = object (
    field "timeUnixNano" (text c.time_ns) (
      field "severityNumber" (number (if is_down status then 17 else 9)) (
        field "severityText" (text (if is_down status then codes "ERROR" else codes "INFO")) (
          field "body"
            (string_value (
              codes "check "
              ++ codes check
              ++ (if is_down status then codes " failed" else codes " recovered")))
            (field "attributes" (array (otlp_attributes c check status cfg)) no_fields)))))

unfoldable pub format_otlp_logs : Context → String → CheckStatus → AlertConfig → Value
unfolding log_record one
format_otlp_logs c check status cfg = object (
    field "resourceLogs"
      (one (
        object (
          field "resource" (object (field "attributes" (array no_values) no_fields)) (
            field "scopeLogs"
              (one (
                object (
                  field "scope"
                    (object (
                      field "name" (text (codes "vigild"))
                        (field "version" (text c.version) no_fields)))
                    (field "logRecords" (one (log_record c check status cfg)) no_fields))))
              no_fields))))
      no_fields)

module _ (engine : String → Map Text → Map Text → Map Text → Rendered)
    (from_str : Text → Option Value) where
  -- what is made of the text of a template
  or_webhook : Value → Option Value → Value
  or_webhook standard none = standard
  or_webhook standard (some v) = v

  after_render : Value → Rendered → Value
  unfolding or_webhook
  after_render standard parse_error = standard
  after_render standard load_error = standard
  after_render standard render_error = standard
  after_render standard (rendered s) = or_webhook standard (from_str s)

  unfoldable pub format_webhook_template :
      Context → String → CheckStatus → AlertConfig → String → Value
  unfolding after_render format_webhook status_str resolved_map
  format_webhook_template c check status cfg template =
      after_render (format_webhook c check status cfg) (
        engine template
          (("check", codes check) ∷ ("status", status_str status) ∷ ("timestamp", c.now) ∷ [])
          (resolved_map c.env cfg.labels) (resolved_map c.env cfg.send_info_fields))

  webhook_payload : Context → String → CheckStatus → AlertConfig → Option String → Value
  unfolding format_webhook_template format_webhook
  webhook_payload c check status cfg none = format_webhook c check status cfg
  webhook_payload c check status cfg (some template) =
      format_webhook_template c check status cfg template

  unfoldable pub format_payload : Context → String → CheckStatus → AlertConfig → Value
  unfolding webhook_payload format_alertmanager format_cloudevents format_otlp_logs
  format_payload c check status cfg = elim cfg.format [
    | webhook ↦ webhook_payload c check status cfg cfg.body_template
    | alertmanager ↦ format_alertmanager c check status cfg
    | cloud_events ↦ format_cloudevents c check status cfg
    | otlp_logs ↦ format_otlp_logs c check status cfg
  ]

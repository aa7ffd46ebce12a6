-- ===== src/Alert/Payloads.antt =====
-- What an Alertmanager payload says of an alert and of its end.
use vigil_rs.Prelude.{
  ◌≡◌, refl, ap, Option, none, some, [], ◌∷◌, String, Text, Map, lookup, lookup-insert, codes,
  str_eq, if◌then◌else◌, arith, ◌∙◌,
}
use vigil_rs.Plan.{AlertConfig}
use vigil_rs.Alert.Status.{up, down}
use vigil_rs.Alert.Format.{
  Value, number, text, array, object, no_values, value, Fields, no_fields, field, Context,
  fields_of, zero_time, alert_labels, format_alertmanager,
}

-- the value of a field, the fields of an object, and the first alert of a payload
abbrev pub get : String → Fields → Option Value
get k no_fields = none
get k (field j v rest) = if str_eq j k then some v else get k rest

abbrev pub fields : Option Value → Fields
fields (some (object f)) = f
fields (some (number n)) = no_fields
fields (some (text t)) = no_fields
fields (some (array vs)) = no_fields
fields none = no_fields

abbrev pub first_alert : Value → Fields
first_alert (array (value v rest)) = fields (some v)
first_alert (array no_values) = no_fields
first_alert (number n) = no_fields
first_alert (text t) = no_fields
first_alert (object f) = no_fields

abbrev pub text_of : Option Text → Option Value
text_of none = none
text_of (some t) = some (text t)

get-fields_of : (k : String) (m : Map Text) → get k (fields_of m) ≡ text_of (lookup k m)
unfolding fields_of lookup
get-fields_of k [] = refl
get-fields_of k ((j, v) ∷ m) = ground (arith, get-fields_of k m)

alertname :
    (c : Context) (check : String) (cfg : AlertConfig)
    → lookup "alertname" (alert_labels c check cfg) ≡ some (codes check)
unfolding alert_labels
alertname c check cfg =
    rw (lookup-insert "check" "alertname" (codes check) _)
      (rw (lookup-insert "alertname" "alertname" (codes check) _) refl)

same_labels :
    (c later : Context) (check : String) (cfg : AlertConfig)
    → later.env ≡ c.env
    → alert_labels c check cfg ≡ alert_labels later check cfg
unfolding alert_labels
same_labels c later check cfg same = rw same refl

-- The payload for a failed check and the one for its recovery, made later in the same environment,
-- name the same alert: their labels are equal, and `alertname` is the check, whatever labels are
-- configured. The first begins at its time and has no end, the second ends at its time.
pub format_alertmanager-resolves :
    (c later : Context) (check : String) (cfg : AlertConfig)
    → later.env ≡ c.env
    → let fired : Fields = first_alert (format_alertmanager c check down cfg) in
      let over : Fields = first_alert (format_alertmanager later check up cfg) in
      (get "labels" fired ≡ get "labels" over)
      × (get "alertname" (fields (get "labels" over)) ≡ some (text (codes check)))
      × (get "startsAt" fired ≡ some (text c.now))
      × (get "endsAt" fired ≡ some (text zero_time))
      × (get "endsAt" over ≡ some (text later.now))
unfolding format_alertmanager
format_alertmanager-resolves c later check cfg same =
    let labels = same_labels c later check cfg same in
    (
      ap (λ m. some (object (fields_of m))) labels,
      get-fields_of "alertname" (alert_labels later check cfg)
          ∙ ap text_of (alertname later check cfg),
      refl,
      refl,
      refl,
    )

-- ===== src/Monitor/Systemd.antt =====
-- The systemd probe (cmd/component-monitor/systemd-prober.go). `bytes` is Go's conversion of a text to its
-- bytes. The connection to D-Bus, and the property that it returns for an object path, are parameters; a
-- value that is no text comes with what is printed for it.
pub mod Laws
use ship_status_dash.Base.{
  ℕ, ◌+◌, ◌*◌, ◌/◌, ◌%◌, String, ◌<>◌, Bool, true, false, ◌&&◌, ◌||◌, none, some, List, [], ◌∷◌,
  ◌++◌, Bytes, ascii, Exec, Result, ok, err, pure, raise, or_raise, ◌>>=◌, ◌==◌, string_eq,
  if◌then◌else◌, leb, ltb,
}
use ship_status_dash.Types.Severity.{Severity, status_healthy, severity_down, to_status}
use ship_status_dash.Types.Outage.{Reason}
use ship_status_dash.Env.{failed}
use ship_status_dash.Monitor.{ProbeResult}

pub record SystemdProber : Type 0 where
  pub component_slug : String
  pub sub_component_slug : String
  pub unit : String
  pub severity : Severity

unfoldable pub new_systemd_prober : String → String → String → Severity → SystemdProber
new_systemd_prober component sub unit severity = record {
  component_slug = component;
  sub_component_slug = sub;
  unit = unit;
  severity = if severity == "" then severity_down else severity;
}

abbrev pub is_alphanumeric : ℕ → Bool
is_alphanumeric c = (leb 97 c && leb c 122) || (leb 65 c && leb c 90) || (leb 48 c && leb c 57)

-- The digit of `%x`.
abbrev pub hex_digit : ℕ → ℕ
hex_digit n = if ltb n 10 then 48 + n else 87 + n

unfoldable pub escape_unit_name : Bytes → Bytes
escape_unit_name [] = []
escape_unit_name (c ∷ cs) =
    let rest = escape_unit_name cs in
    if is_alphanumeric c then c ∷ rest else 95 ∷ (hex_digit (c / 16) ∷ (hex_digit (c % 16) ∷ rest))

-- The value of a property: a text, or something else as it is printed.
pub data Variant : Type 0 where
  text_value : String → Variant
  other_value : String → Variant

pub record Bus (S : Type 0) : Type 0 where
  pub connect : Exec S String (Unit {0})
  pub get_active_state : Bytes → Exec S String Variant

abbrev result_of : SystemdProber → String → List Reason → ProbeResult
result_of p status reasons = record {
  status = record {
    component_slug = p.component_slug;
    sub_component_slug = p.sub_component_slug;
    status = status;
    reasons = reasons;
  };
  probe_type = "systemd";
  error = none;
}

unfoldable pub format_error_result : SystemdProber → String → ProbeResult
format_error_result p e = record (result_of p "" []) {
  error = some (
      failed (
        "error running systemd probe, for component: "
        <> (p.component_slug
            <> (" sub-component "
                <> (p.sub_component_slug <> (". unit: " <> (p.unit <> (". error: " <> e))))))));
}

abbrev state_result : SystemdProber → String → ProbeResult
state_result p state =
    result_of p (if state == "active" then status_healthy else to_status p.severity) (
      record { outage_id = 0; type = "systemd"; check = p.unit; results = "ActiveState: " <> state }
      ∷ [])

abbrev prefixed : String → String → String
prefixed text e = text <> e

module _ {S : Type 0} (bus : Bus S) (bytes : String → Bytes) (p : SystemdProber) where
  abbrev from_variant : Variant → Exec S String ProbeResult
  from_variant (text_value state) = pure (state_result p state)
  from_variant (other_value printed) =
      raise ("unexpected ActiveState type for unit " <> (p.unit <> (": " <> printed)))

  abbrev object_path : Bytes
  object_path = ascii "/org/freedesktop/systemd1/unit/" ++ escape_unit_name (bytes p.unit)

  unfoldable pub probe_or_error : Exec S String ProbeResult
  probe_or_error = do
    _ ← or_raise bus.connect (prefixed "failed to connect to system D-Bus: ")
    value ←
        or_raise (bus.get_active_state object_path)
          (prefixed ("failed to get ActiveState for unit " <> (p.unit <> ": ")))
    from_variant value

  abbrev pub sent : Result String ProbeResult → ProbeResult
  sent (ok result) = result
  sent (err e) = format_error_result p e

  -- `Probe`: the result that it sends, unless the context is canceled.
  unfoldable pub probe : S → ProbeResult × S
  probe s = let (r, s') = probe_or_error s in (sent r, s')

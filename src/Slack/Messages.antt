-- ===== src/Slack/Messages.antt =====
-- The texts of the posts (pkg/outage/slack_report.go). `lower` is the lower case that `Slugify`
-- uses and `time` the standard library's RFC 3339 form of a time. Texts here are Unicode: where
-- `truncateString` would cut inside a character's bytes, that character is dropped whole.
use Prim.Native.Char.{Char}
use ship_status_dash.Base.{
  ℕ, ◌-◌, String, ◌<>◌, Bool, true, false, not, ◌&&◌, Option, none, some, List, [], ◌∷◌, ◌++◌, ◌==◌,
  nat_eq, string_eq, leb, ltb, ◌+◌, join, code, if◌then◌else◌,
}
use ship_status_dash.Types.Outage.{NullTime, Outage}
use ship_status_dash.Types.Config.{
  Component, SubComponent, DashboardConfig, get_component_by_slug, get_sub_component_by_slug,
}
use ship_status_dash.Utils.Slugify.{slugify}
use ship_status_dash.Utils.Format.{decimal}

abbrev pub line_feed : String
line_feed = "\n"

unfoldable pub get_string_value : Option String → String
get_string_value none = ""
get_string_value (some s) = s

abbrev pub max_truncate_length : ℕ
max_truncate_length = 240

-- The bytes of a character in UTF-8.
abbrev pub char_bytes : Char → ℕ
char_bytes c =
    if ltb (code c) 128
    then 1
    else if ltb (code c) 2048
    then 2
    else if ltb (code c) 65536
    then 3
    else 4

abbrev pub byte_length : String → ℕ
byte_length String.[] = 0
byte_length (String.◌∷◌ c s) = char_bytes c + byte_length s

-- The characters that the first bytes hold whole. The code also keeps the first bytes of a character
-- that the cut divides, which are no text.
abbrev pub take_bytes : ℕ → String → String
take_bytes n String.[] = ""
take_bytes n (String.◌∷◌ c s) =
    let rest = take_bytes (n - char_bytes c) s in
    if leb (char_bytes c) n then String.◌∷◌ c rest else ""

-- Go measures and cuts bytes.
unfoldable pub truncate_string : String → String
truncate_string s =
    if leb (byte_length s) max_truncate_length
    then s
    else take_bytes (max_truncate_length - 3) s <> "..."

-- `strings.Split(text, "\n")`, and `>` before each line.
abbrev pub quote_lines : String → String
quote_lines String.[] = ""
quote_lines (String.◌∷◌ c s) =
    if code c == 10 then String.◌∷◌ c (">" <> quote_lines s) else String.◌∷◌ c (quote_lines s)

unfoldable pub format_quote_block : String → String
format_quote_block text = ">" <> quote_lines text

unfoldable pub build_outage_link : (Char → Char) → String → Outage → String
build_outage_link lower base_url o =
    base_url
    <> (slugify lower o.component_name
        <> ("/" <> (slugify lower o.sub_component_name <> ("/outages/" <> decimal o.id))))

-- `strings.TrimPrefix(channel, "#")`.
abbrev trim_hash : String → String
trim_hash String.[] = ""
trim_hash (String.◌∷◌ c s) = if code c == 35 then s else String.◌∷◌ c s

-- `strings.ReplaceAll(timestamp, ".", "")`.
abbrev without_dots : String → String
without_dots String.[] = ""
without_dots (String.◌∷◌ c s) =
    let rest = without_dots s in if code c == 46 then rest else String.◌∷◌ c rest

unfoldable pub build_thread_url : String → String → String → String
build_thread_url workspace_url channel timestamp =
    workspace_url <> ("archives/" <> (trim_hash channel <> ("/p" <> without_dots timestamp)))

abbrev name_or : String → Option SubComponent → String
name_or slug none = slug
name_or slug (some sub) = sub.name

abbrev quoted_if : Bool → String → String → List String
quoted_if true title text = title ∷ format_quote_block (truncate_string text) ∷ []
quoted_if false title text = []

module _ (lower : Char → Char) (time : ℕ → String) (base_url : String) where
  unfoldable pub format_outage_message : Outage → Component → String
  format_outage_message o component = join line_feed (
      ("🚨 Outage Detected: "
        <> (component.name
            <> ("/"
                <> name_or o.sub_component_name
                    (get_sub_component_by_slug component o.sub_component_name))))
      ∷ ""
      ∷ ("Severity: `" <> (o.severity <> "`"))
      ∷ (quoted_if (not (o.description == "")) "Description:" o.description
          ++ (quoted_if (not (get_string_value o.triage_notes == "")) "Triage notes:"
                (get_string_value o.triage_notes)
              ++ (("Started: `" <> (time o.start_time <> "`"))
                  ∷ ("Created by: `" <> (o.created_by <> "`"))
                  ∷ ("Discovered from: `" <> (o.discovered_from <> "`"))
                  ∷ ""
                  ∷ ("<" <> (build_outage_link lower base_url o <> "|View Outage>"))
                  ∷ []))))

abbrev bool_eq : Bool → Bool → Bool
bool_eq true b = b
bool_eq false b = not b

abbrev severity_change : Outage → Outage → List String
severity_change o old =
    if old.severity == o.severity
    then []
    else ("Severity changed: `" <> (old.severity <> ("` → `" <> (o.severity <> "`")))) ∷ []

module _ (time : ℕ → String) where
  abbrev end_change : NullTime → NullTime → List String
  end_change new old =
      if not (bool_eq old.valid new.valid)
      then (if new.valid then ("Resolved at `" <> (time new.time <> "`")) ∷ [] else "Reopened" ∷ [])
      else if old.valid && new.valid
      then (if not (old.time == new.time)
          then ("Resolved time updated: `" <> (time new.time <> "`")) ∷ []
          else [])
      else []

  abbrev confirm_change : NullTime → NullTime → List String
  confirm_change new old =
      if not (bool_eq old.valid new.valid)
      then (if new.valid
          then ("Confirmed at `" <> (time new.time <> "`")) ∷ []
          else "Unconfirmed" ∷ [])
      else []

  -- The changes that an update message lists.
  unfoldable pub list_changes : Outage → Outage → List String
  list_changes o old =
      severity_change o old
      ++ (end_change o.end_time old.end_time
          ++ (confirm_change o.confirmed_at old.confirmed_at
              ++ (quoted_if (not (old.description == o.description)) "Description updated:"
                    o.description
                  ++ quoted_if
                      (not (get_string_value old.triage_notes == get_string_value o.triage_notes))
                      "Triage notes updated:" (get_string_value o.triage_notes))))

abbrev or_updated : List String → List String
or_updated [] = "Outage updated" ∷ []
or_updated (c ∷ cs) = c ∷ cs

abbrev component_title : Option Component → String → String
component_title none sub = "Unknown/" <> sub
component_title (some component) sub =
    component.name <> ("/" <> name_or sub (get_sub_component_by_slug component sub))

abbrev emoji : NullTime → NullTime → String
emoji new old = if not old.valid && new.valid then ":outage_resolved:" else "📝"

module _ (lower : Char → Char) (time : ℕ → String) (base_url : String) where
  unfoldable pub format_update_message : DashboardConfig → Outage → Outage → String
  format_update_message cfg o old = join line_feed (
      (emoji o.end_time old.end_time
        <> (" Outage Updated: "
            <> (component_title (get_component_by_slug cfg o.component_name) o.sub_component_name
                <> (" (#" <> (decimal o.id <> ")")))))
      ∷ ""
      ∷ join line_feed (or_updated (list_changes time o old))
      ∷ ""
      ∷ ("<" <> (build_outage_link lower base_url o <> "|View Outage>"))
      ∷ [])

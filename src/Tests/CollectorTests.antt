-- ===== src/Tests/CollectorTests.antt =====
-- The theorems on the collector's processor at concrete inputs.
use micro_market.Base.{
  if◌then◌else◌, ℕ, String, ◌≡◌, refl, Option, none, some, List, [], ◌∷◌, map, str_eq,
}
use micro_market.Collector.{create_default_config, Attributes, ResourceLogs, modify_logs}
use micro_market.Collector.Redaction.{
  IsMap, resource_view, expected_logs, modify_logs-view, modify_logs-modify_logs,
}

-- Attributes as functions of the key. A value is its text.
abbrev attributes : Attributes
attributes = record {
  Attrs = String → Option String;
  Value = String;
  get = λ k m. m k;
  put_str = λ k s m j. if str_eq k j then some s else m j;
  put_bool = λ k b m j. if str_eq k j then some "" else m j;
  str = λ v. v;
}

attributes-IsMap : IsMap attributes
attributes-IsMap = record {
  get-put_str = λ k j s m. (s, refl, refl);
  get-put_bool = λ k j b m. ("", refl, refl);
}

abbrev with_email : String → Option String
with_email k = if str_eq k "user.email" then some "ann@market" else none

abbrev batch : List (ResourceLogs attributes ℕ)
batch =
    record {
      resource = λ k. none;
      scope_logs = (record { attributes = with_email; rest = 4 } ∷ []) ∷ [];
    }
    ∷ []

modify_logs-view_example :
    map
      (resource_view attributes attributes-IsMap create_default_config)
      (modify_logs attributes create_default_config batch)
    ≡ map
        (expected_logs attributes attributes-IsMap create_default_config)
        (map (resource_view attributes attributes-IsMap create_default_config) batch)
modify_logs-view_example = modify_logs-view attributes attributes-IsMap create_default_config batch

modify_logs-modify_logs_example :
    map (resource_view attributes attributes-IsMap create_default_config) (
      modify_logs attributes create_default_config
        (modify_logs attributes create_default_config batch))
    ≡ map
        (resource_view attributes attributes-IsMap create_default_config)
        (modify_logs attributes create_default_config batch)
modify_logs-modify_logs_example =
    modify_logs-modify_logs attributes attributes-IsMap create_default_config batch

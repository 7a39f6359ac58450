-- ===== src/Catalog.antt =====
-- internal/catalog/catalog.go: the challenges that the scoreboard grades.
use falco_ctf_app.Prelude.{String, Bool, ◌≡◌, Option, some, List, map, string_eq}
use falco_ctf_app.Prelude.Maps.{Map, lookup}
use falco_ctf_app.Prelude.Sort.{sort, string_le}

pub record Detect : Type 0 where
  pub evasion_capture : String
  pub benign_capture : String
  pub rule_name : String
  pub allowed_macros : List String
  pub evasion_capture_path : String
  pub benign_capture_path : String

pub record Challenge : Type 0 where
  pub id : String
  pub type : String
  pub expected_rules : List String
  pub forbidden_rules : List String
  pub expected_flag : String
  pub require_exfil : Bool
  pub require_expected_rule_fire : Bool
  pub detect : Option Detect
  pub no_hint_penalty : Bool
  pub dir : String

abbrev pub Catalog : Type 0
Catalog = Map String Challenge

unfoldable pub ids : Catalog → List String
ids c = sort string_le (map (λ e. e.0) c)

-- Load stores every challenge under its own id.
pub record IsLoaded (c : Catalog) : Type 0 where
  pub own_id : (cid : String) {ch : Challenge} → lookup cid c ≡ some ch → ch.id ≡ cid

-- ===== src/Api/Journeys.antt =====
-- The journey page of one participant: journey, missionDetail and docsURL of
-- internal/scoreboard/api/api.go, with the excerpt types of internal/catalog/rules.go. A page is
-- computed from the store alone; `now` is the clock in seconds.
pub mod Page
pub mod Hints
pub mod Current
pub mod Next
use falco_ctf_app.Prelude.{
  ℕ, zero, suc, ◌-◌, ◌*◌, String, string_eq, nat_eq, Bool, true, false, not, ◌&&◌, ◌||◌, Option,
  none, some, List, [], ◌∷◌, ◌++◌, ◌==◌, contains, keep, leb, length, is_some, if◌then◌else◌,
}
use falco_ctf_app.Prelude.Int.{ℤ, pos}
use falco_ctf_app.Prelude.Maps.{Map, lookup, has, insert}
use falco_ctf_app.Prelude.Sort.{sort}
use falco_ctf_app.Prelude.Text.{Text, text, strip_prefix}
use falco_ctf_app.Catalog.{Challenge, Catalog}
use falco_ctf_app.Store.State.{SolveKey, Store}
use falco_ctf_app.Store.Solves.{has_exfil_any}
use falco_ctf_app.Store.Reveals.{hint_views, step_checks}
use falco_ctf_app.Store.Rules.{recent_fires_matching, dirty_rules, has_expected_rule_fire}
use falco_ctf_app.Scoring.Grader.{Grader, first_unsolved, hint_penalty_for}
use falco_ctf_app.Api.Actions.{JourneyStep, JourneyHint, Journey}
use falco_ctf_app.Api.Leaderboard.{Entry}
use Prim.Native.String.{◌++◌ as str_append}

pub record FalcoRuleItem : Type 0 where
  pub name : String
  pub desc : String
  pub condition : String
  pub output : String
  pub priority : String
  pub tags : List String

pub record FalcoMacroItem : Type 0 where
  pub name : String
  pub condition : String

pub record FalcoListItem : Type 0 where
  pub name : String
  pub items : List String

pub record FalcoRuleExcerpt : Type 0 where
  pub lists : List FalcoListItem
  pub macros : List FalcoMacroItem
  pub rules : List FalcoRuleItem

-- What the page is made from, besides the store.
pub record Pages : Type 0 where
  pub cat : Catalog
  pub grader : Grader
  pub journeys : Map String Journey
  pub falco_rules : Map String FalcoRuleExcerpt
  pub order : List String
  pub docs_base_url : String

pub record StepView : Type 0 where
  pub idx : ℕ
  pub label : String
  pub detail : String
  pub checked : Bool

pub record HintView : Type 0 where
  pub idx : ℕ
  pub text : String
  pub kind : String
  pub rule_refs : List String
  pub cheatsheet_ref : String

pub record HintsView : Type 0 where
  pub total : ℕ
  pub opened : List HintView
  pub locked_count : ℕ
  pub next_index : ℕ
  pub penalty : ℤ

pub data Status : Type 0 where
  solved current locked : Status

pub record MissionDetail : Type 0 where
  pub id : String
  pub status : Status
  pub title : String
  pub tagline : String
  pub briefing : String
  pub lead_in : String
  pub type : String
  pub docs_url : String
  pub has_journey : Bool
  pub require_exfil : Bool
  pub exfil_received : Bool
  pub require_expected_rule_fire : Bool
  pub expected_rule_fired : Bool
  pub expected_rules : List String
  pub detected_rules : List String
  pub dirty : Bool
  pub dirty_rules : List String
  pub steps : List StepView
  pub falco_rule : FalcoRuleExcerpt
  pub has_falco_rule : Bool
  pub hints : HintsView

-- strings.HasPrefix
abbrev pub has_prefix : String → String → Bool
has_prefix s p = is_some (strip_prefix (text p) (text s))

unfoldable pub docs_url : String → String → String
unfolding strip_prefix
docs_url base rel =
    if rel == "" || base == ""
    then rel
    else if has_prefix rel "http://" || has_prefix rel "https://"
    then rel
    else str_append base (if not (has_prefix rel "/") then str_append "/" rel else rel)

-- A read of a Go map at a missing key: the zero value.
abbrev pub challenge_of : Option Challenge → Challenge
challenge_of (some ch) = ch
challenge_of none = record {
  id = "";
  type = "";
  expected_rules = [];
  forbidden_rules = [];
  expected_flag = "";
  require_exfil = false;
  require_expected_rule_fire = false;
  detect = none;
  no_hint_penalty = false;
  dir = "";
}

abbrev pub journey_of : Option Journey → Journey
journey_of (some j) = j
journey_of none = record {
  title = "";
  tagline = "";
  briefing = "";
  steps = [];
  hints = [];
  bridge = "";
  docs_url = "";
}

abbrev pub excerpt_of : Option FalcoRuleExcerpt → FalcoRuleExcerpt
excerpt_of (some x) = x
excerpt_of none = record { lists = []; macros = []; rules = [] }

abbrev pub title_of : String → Option Journey → String
title_of cid none = cid
title_of cid (some j) = if not (j.title == "") then j.title else cid

unfoldable pub steps_from : ℕ → List JourneyStep → List ℕ → List StepView
steps_from i [] checked = []
steps_from i (s ∷ rest) checked =
    record { idx = i; label = s.label; detail = s.detail; checked = contains checked i }
    ∷ steps_from (suc i) rest checked

abbrev pub hint_view : ℕ → JourneyHint → HintView
hint_view i h = record {
  idx = i;
  text = h.text;
  kind = h.kind;
  rule_refs = h.rule_refs;
  cheatsheet_ref = h.cheatsheet_ref;
}

-- The loop over the hints from index i, with the next unopened index found so far, or 0.
unfoldable pub hints_from : ℕ → List JourneyHint → List ℕ → ℕ → List HintView × ℕ
hints_from i [] opened next = ([], next)
hints_from i (h ∷ rest) opened next =
    let (views, last) =
      hints_from (suc i) rest opened
        (if contains opened i then next else if next == 0 then i else next) in
    (if contains opened i then hint_view i h ∷ views else views, last)

abbrev pub idx_le : HintView → HintView → Bool
idx_le a b = leb a.idx b.idx

abbrev pub hints_view : Grader → Challenge → List JourneyHint → List ℕ → HintsView
hints_view g ch hints opened =
    let (views, next) = hints_from 1 hints opened 0 in
    let list = sort idx_le views in
    record {
      total = length hints;
      opened = list;
      locked_count = length hints - length list;
      next_index = next;
      penalty = if ch.no_hint_penalty then pos 0 else hint_penalty_for g (pos next);
    }

-- triggerDetectWindowSeconds, in nanoseconds like the clock of the store.
abbrev pub trigger_window : ℕ
trigger_window = 60 * 1000000000

abbrev pub nonempty : List String → Bool
nonempty [] = false
nonempty (_ ∷ _) = true

unfoldable pub mission_detail :
    Pages → ℕ → Store → String → String → Status → String → List ℕ → List ℕ → MissionDetail
unfolding docs_url steps_from hints_from
mission_detail p now s user cid status lead_in checked_steps opened_hints =
    let ch = challenge_of (lookup cid p.cat) in
    let found = lookup cid p.journeys in
    let j = journey_of found in
    let require_exfil = ch.type == "evade" && ch.require_exfil in
    let require_fire = ch.type == "evade" && ch.require_expected_rule_fire in
    record {
      id = cid;
      status = status;
      title = title_of cid found;
      tagline = j.tagline;
      briefing = j.briefing;
      lead_in = lead_in;
      type = ch.type;
      docs_url = docs_url p.docs_base_url j.docs_url;
      has_journey = is_some found;
      require_exfil = require_exfil;
      exfil_received = require_exfil && has_exfil_any user cid s;
      require_expected_rule_fire = require_fire;
      expected_rule_fired = require_fire && has_expected_rule_fire user cid s;
      expected_rules = if ch.type == "trigger" then ch.expected_rules else [];
      detected_rules =
          if ch.type == "trigger"
          then recent_fires_matching user ch.expected_rules (now * 1000000000) trigger_window s
          else [];
      dirty = nonempty (dirty_rules user cid s);
      dirty_rules = dirty_rules user cid s;
      steps = steps_from 0 j.steps checked_steps;
      falco_rule = excerpt_of (lookup cid p.falco_rules);
      has_falco_rule = has cid p.falco_rules;
      hints = hints_view p.grader ch j.hints opened_hints;
    }

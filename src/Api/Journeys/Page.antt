-- ===== src/Api/Journeys/Page.antt =====
-- journey of internal/scoreboard/api/api.go: the missions in their order with the status of each, and
-- the detail of the one that is viewed. `selected` is the trimmed query value, "" where there is none.
use falco_ctf_app.Prelude.{
  ℕ, String, string_eq, Bool, not, ◌&&◌, Option, none, some, List, [], ◌∷◌, ◌==◌, contains, keep,
  length, is_some, if◌then◌else◌,
}
use falco_ctf_app.Prelude.Int.{ℤ, pos}
use falco_ctf_app.Prelude.Maps.{Map, lookup, has, insert}
use falco_ctf_app.Prelude.Text.{Text, text}
use falco_ctf_app.Identity.{valid_seat}
use falco_ctf_app.Catalog.{Catalog}
use falco_ctf_app.Store.State.{SolveKey, Store}
use falco_ctf_app.Store.Reveals.{hint_views, step_checks}
use falco_ctf_app.Store.Lifecycle.{snapshot}
use falco_ctf_app.Scoring.Grader.{first_unsolved, hint_penalty_for}
use falco_ctf_app.Scoring.Sweep.{user_score}
use falco_ctf_app.Api.Gates.{Reason, self_or_admin_gate, self_or_admin, trimmed}
use falco_ctf_app.Api.Actions.{ApiHandler, indices}
use falco_ctf_app.Api.Leaderboard.{display_of, avatar_of}
use falco_ctf_app.Api.Journeys.{
  Pages, Status, solved, current, locked, MissionDetail, mission_detail, challenge_of, journey_of,
  title_of, docs_url,
}

pub record MissionView : Type 0 where
  pub id : String
  pub title : String
  pub tagline : String
  pub type : String
  pub status : Status
  pub has_journey : Bool
  pub bridge : String
  pub docs_url : String

pub record JourneyPage : Type 0 where
  pub user : String
  pub display_name : String
  pub avatar : String
  pub solved_count : ℕ
  pub total : ℕ
  pub current : Option String
  pub missions : List MissionView
  pub detail : Option MissionDetail
  pub score : ℤ
  pub hint_penalty : ℤ

-- The answers of the two reads of a participant's own progress.
pub data ReadAnswer (A : Type 0) : Type 0 where
  invalid_user : ReadAnswer A
  forbidden : ReadAnswer A
  page : A → ReadAnswer A

abbrev pub allowed : {A : Type 0} → Option Reason → ApiHandler → A → ReadAnswer A × ApiHandler
allowed none h answer = (page answer, h)
allowed (some reason) h answer =
    (forbidden, record h { denials = (self_or_admin_gate, reason) ∷ h.denials })

-- The gates that userMe and journey share.
unfoldable pub for_user :
    {A : Type 0} → Text → String → ApiHandler → (String → A) → ReadAnswer A × ApiHandler
for_user email raw h view =
    if not (valid_seat (trimmed raw))
    then (invalid_user, h)
    else allowed (self_or_admin h.admin_set h.email_domain email (text (trimmed raw))) h
        (view (trimmed raw))

-- The order, less the ids that are not challenges.
abbrev pub known_order : Catalog → List String → List String
known_order cat order = keep (λ id. has id cat) order

unfoldable pub solved_set :
    Catalog → String → Map SolveKey String → Map String (Unit {0}) → Map String (Unit {0})
solved_set cat user [] set = set
solved_set cat user ((k, _) ∷ m) set =
    solved_set cat user m (
      if k.user == user
      then if has k.challenge cat then insert k.challenge tt set else set
      else set)

abbrev pub status_of : Map String (Unit {0}) → String → String → Status
status_of done now_at id = if has id done then solved else if id == now_at then current else locked

abbrev pub mission_view : Pages → Map String (Unit {0}) → String → String → MissionView
mission_view p done now_at id =
    let found = lookup id p.journeys in
    record {
      id = id;
      title = title_of id found;
      tagline = (journey_of found).tagline;
      type = (challenge_of (lookup id p.cat)).type;
      status = status_of done now_at id;
      has_journey = is_some found;
      bridge = (journey_of found).bridge;
      docs_url = docs_url p.docs_base_url (journey_of found).docs_url;
    }

unfoldable pub mission_views :
    Pages → Map String (Unit {0}) → String → List String → List MissionView
mission_views p done now_at [] = []
mission_views p done now_at (id ∷ rest) =
    mission_view p done now_at id ∷ mission_views p done now_at rest

abbrev pub view_mission : List String → String → String → String
view_mission order now_at selected =
    if not (selected == "") && contains order selected then selected else now_at

-- The bridge of the mission before the viewed one; `previous` is none at the first.
unfoldable pub lead_in : Pages → String → Option String → List String → String
lead_in p viewed previous [] = ""
lead_in p viewed none (id ∷ rest) = lead_in p viewed (some id) rest
lead_in p viewed (some before) (id ∷ rest) =
    let later = lead_in p viewed (some id) rest in
    if id == viewed then (journey_of (lookup before p.journeys)).bridge else later

abbrev pub named : String → Option String
named id = if id == "" then none else some id

unfoldable pub journey_page : Pages → ℕ → Store → String → String → JourneyPage
unfolding solved_set mission_views lead_in
journey_page p now s selected user =
    let snap = snapshot s in
    let order = known_order p.cat p.order in
    let done = solved_set p.cat user snap.solved [] in
    let now_at = first_unsolved order p.cat (λ id. has id done) in
    let viewed = view_mission order now_at selected in
    record {
      user = user;
      display_name = display_of snap user;
      avatar = avatar_of snap user;
      solved_count = length done;
      total = length order;
      current = named now_at;
      missions = mission_views p done now_at order;
      detail =
          if viewed == ""
          then none
          else some (
              mission_detail p now s user viewed (status_of done now_at viewed)
                (lead_in p viewed none order) (indices (lookup viewed (step_checks user s)))
                (indices (lookup viewed (hint_views user s))));
      score = user_score p.grader user (pos (length done)) s;
      hint_penalty = hint_penalty_for p.grader (pos 1);
    }

-- journey
unfoldable pub journey :
    Pages → ℕ → Text → String → String → ApiHandler → ReadAnswer JourneyPage × ApiHandler
unfolding for_user journey_page
journey p now email raw selected h = for_user email raw h (journey_page p now h.store selected)

-- ===== src/Examples/Pages.antt =====
-- The pages and the standings of internal/scoreboard/api, with one mission of two hints.
use falco_ctf_app.Prelude.{
  ◌≡◌, ◌<◌, ◌⊎◌, refl, ◌≢◌, ◌&&◌, ◌||◌, not, true, false, List, [], ◌∷◌, map, all, any, leb, length,
  String, string_eq,
}
use falco_ctf_app.Prelude.Int.{pos}
use falco_ctf_app.Prelude.Maps.{Map, lookup, insert, has}
use falco_ctf_app.Prelude.Sort.{sort}
use falco_ctf_app.Prelude.Text.{Text}
use falco_ctf_app.Avatar
use falco_ctf_app.Avatar.Seats.{in_table, resolve-selectable}
use falco_ctf_app.Store.State.{Store, hint_eq}
use falco_ctf_app.Store.Reveals.{hint_key, hint_views, collect_hints, sort_each}
use falco_ctf_app.Store.Lifecycle.{snapshot}
use falco_ctf_app.Scoring.Grader.{new, current_mission, order_of}
use falco_ctf_app.Catalog.{ids}
use falco_ctf_app.Scoring.Sweep.{user_score}
use falco_ctf_app.Api.Actions.{Journey, JourneyHint, may_open}
use falco_ctf_app.Api.Leaderboard.{Entry, compute_leaderboard, entry_of}
use falco_ctf_app.Api.Leaderboard.Rows.{is_hidden, is_row_of, counts_for, compute_leaderboard_users}
use falco_ctf_app.Api.Journeys.{Pages, locked, mission_detail, hints_from}
use falco_ctf_app.Api.Journeys.Hints.{is_hint, quotes, hints_of, shown, shown_hints}
use falco_ctf_app.Api.Journeys.Next.{next_hint}
use falco_ctf_app.Api.Journeys.Current.{statuses, status_in, journey_page-current}
use falco_ctf_app.Api.Journeys.Page.{named, known_order, journey_page}
use falco_ctf_app.Api.Progress.Own.{me, me_page_score}
use falco_ctf_app.Examples.Stores.{fresh}
use falco_ctf_app.Examples.Grades.{grader, catalog}

abbrev of_staff : String
of_staff = "flame-slate"

resolve-selectable_example :
    (in_table (Avatar.resolve of_staff "user7") ≡ true)
    × (Avatar.resolve of_staff "user7" ≢ "flame-slate")
    × ((Avatar.resolve of_staff "user7" ≡ of_staff)
        ⊎ (in_table of_staff ≡ false)
        ⊎ (of_staff ≡ "flame-slate"))
resolve-selectable_example = resolve-selectable of_staff "user7"

-- user2 has solved the mission and opened its first hint; user1 has only caused events.
abbrev played : Store
played = record fresh {
  mem = record fresh.mem {
    solved = (record { user = "user2"; challenge = "evade-01" }, "2026-09-03T10:00:00Z") ∷ [];
    events_per_user = ("user1", 3) ∷ [];
    hint_views = (hint_key "user2" "evade-01" 1, true) ∷ [];
  };
}

abbrev nobody : Map Text (Unit {0})
nobody = []

abbrev cids : List String
cids = "evade-01" ∷ []

abbrev row1 : Entry
row1 = entry_of grader played (snapshot played) cids "user1"

abbrev row2 : Entry
row2 = record (entry_of grader played (snapshot played) cids "user2") { rank = 1 }

compute_leaderboard_users_example :
    any (is_row_of "user1") (compute_leaderboard nobody grader played (snapshot played) cids) ≡ (
      not (is_hidden nobody "user1")
      && (has "user1" (snapshot played).events_per_user
          || any (counts_for cids "user1") (snapshot played).solved))
compute_leaderboard_users_example =
    compute_leaderboard_users nobody grader played (snapshot played) cids "user1"

abbrev hint : JourneyHint
hint = record { kind = "rule"; text = "look"; rule_refs = []; cheatsheet_ref = "" }

abbrev quiet : Journey
quiet = record {
  title = "Quiet";
  tagline = "";
  briefing = "";
  steps = [];
  hints = hint ∷ hint ∷ [];
  bridge = "";
  docs_url = "/missions/01-evade/";
}

abbrev pages : Pages
pages = record {
  cat = catalog;
  grader = grader;
  journeys = ("evade-01", quiet) ∷ [];
  falco_rules = [];
  order = cids;
  docs_base_url = "https://docs.example";
}

shown_hints_example :
    (any (is_hint 1) (shown pages 0 played "user2" "evade-01" locked "" []).hints.opened ≡ (
      leb 1 1
      && leb 1 (length (hints_of pages "evade-01"))
      && has (hint_key "user2" "evade-01" 1) played.mem.hint_views))
    × (all
          (quotes 1 (hints_of pages "evade-01"))
          (shown pages 0 played "user2" "evade-01" locked "" []).hints.opened
        ≡ true)
shown_hints_example = shown_hints pages 0 played "user2" "evade-01" locked "" [] 1

offered : (shown pages 0 played "user2" "evade-01" locked "" []).hints.next_index ≡ 2
unfolding mission_detail hints_from hint_views collect_hints sort_each sort lookup insert
offered = refl

next_hint_example :
    (1 < length (hints_of pages "evade-01"))
    × (has (hint_key "user2" "evade-01" 2) played.mem.hint_views ≡ false)
    × (may_open "user2" "evade-01" 1 played ≡ true)
next_hint_example = next_hint pages 0 played "user2" "evade-01" locked "" [] 1 offered

one_order : order_of grader.order grader.cat ≡ cids
unfolding new ids sort
one_order = refl

one_catalog : grader.cat ≡ catalog
unfolding new
one_catalog = refl

journey_page-current_example :
    ((journey_page pages 0 played "" "user2").current
      ≡ named (current_mission grader "user2" played))
    × (statuses (journey_page pages 0 played "" "user2").missions
        ≡ map
            (λ id. (id, status_in "user2" played (current_mission grader "user2" played) id))
            (known_order catalog cids))
journey_page-current_example = journey_page-current pages 0 played "" "user2" one_order one_catalog

me_page_score_example :
    ((me nobody grader catalog 0 played "user2").score
      ≡ user_score grader "user2"
          (pos (me nobody grader catalog 0 played "user2").solved_count)
          played)
    × ((is_hidden nobody "user2" ≡ false) ⊎ ((me nobody grader catalog 0 played "user2").rank ≡ 0))
me_page_score_example = me_page_score nobody grader catalog 0 played "user2"

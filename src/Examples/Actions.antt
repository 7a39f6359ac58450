-- ===== src/Examples/Actions.antt =====
-- The participant actions of internal/scoreboard/api with one mission of two hints.
use falco_ctf_app.Prelude.{◌≡◌, refl, ◌↔◌, false, arith, none, some, List, [], ◌∷◌}
use falco_ctf_app.Prelude.Int.{pos}
use falco_ctf_app.Prelude.Maps.{Map, lookup, has}
use falco_ctf_app.Prelude.Text.{Text, text, text_eq}
use falco_ctf_app.Identity.Domain.{canonical}
use falco_ctf_app.Store.Reveals.{hint_views, collect_hints, sort_each}
use falco_ctf_app.Api.Gates.{self_or_admin}
use falco_ctf_app.Api.OwnSeat.{seat_identity-own}
use falco_ctf_app.Api.Actions.{ApiHandler, ActionRequest, JourneyHint}
use falco_ctf_app.Api.HintMap.{OpenedInOrder}
use falco_ctf_app.Api.HintOrder.{Action, opens, redoes, act_all, act_all-OpenedInOrder}
use falco_ctf_app.Examples.Stores.{fresh}
use falco_ctf_app.Examples.Grades.{quiet_shell}
use falco_ctf_app.Examples.Identities.{domain, admins, decoded, parsed, user01-seated}

abbrev hint : JourneyHint
hint = record { kind = "rule"; text = "look"; rule_refs = []; cheatsheet_ref = "" }

abbrev handler : ApiHandler
handler = record {
  cat = ("01-evade", record quiet_shell { id = "01-evade"; dir = "01-evade" }) ∷ [];
  store = fresh;
  admin_set = [];
  email_domain = domain;
  journeys =
      (
        "01-evade",
        record {
          title = "Quiet";
          tagline = "";
          briefing = "";
          steps = [];
          hints = hint ∷ hint ∷ [];
          bridge = "";
          docs_url = "/missions/01-evade/";
        },
      )
      ∷ [];
  denials = [];
}

abbrev opening : ActionRequest
opening = record {
  email = text "user01@ctf.invalid";
  user = " user01";
  cid = "01-evade";
  idx = some (pos 1);
  checked = none;
}

abbrev next : ActionRequest
next = record opening { idx = some (pos 2) }

abbrev requests : List Action
requests = opens opening "t1" ∷ opens next "t2" ∷ redoes opening ∷ []

abbrev no_admins : Map Text (Unit {0})
no_admins = []

fresh-OpenedInOrder : OpenedInOrder fresh
unfolding hint_views collect_hints sort_each lookup
fresh-OpenedInOrder = record { earlier = λ u c i j lo hi h. absurd (ground (arith, h)) }

act_all-OpenedInOrder_example : OpenedInOrder (act_all requests handler).store
act_all-OpenedInOrder_example = act_all-OpenedInOrder requests handler fresh-OpenedInOrder

unlisted : has (canonical (text "user01") domain) no_admins ≡ false
unfolding lookup
unlisted = refl

seat_identity-own_example :
    (self_or_admin no_admins domain (canonical (text "user01") domain) (text "user02") ≡ none)
    ↔ (text "user02" ≡ text "user01")
seat_identity-own_example =
    seat_identity-own decoded domain admins (text "user01") (text "user02") no_admins parsed
      user01-seated unlisted

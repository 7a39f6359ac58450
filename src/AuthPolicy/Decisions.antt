-- ===== src/AuthPolicy/Decisions.antt =====
-- Whom the three checks of internal/authpolicy/server.go let through, and as whom.
use falco_ctf_app.Prelude.{
  true, false, ◌≡◌, ◌≢◌, ◌⊎◌, refl, sym, ap, ◌∙◌, inl, inr, Option, none, some, [], ◌∷◌, ◌++◌,
  arith, ◌==◌, nat_eq, ==_refl, Bool-cases, Option-cases,
}
use falco_ctf_app.Prelude.Text.{Text, text, text_eq}
use falco_ctf_app.Identity.{match_seat}
use falco_ctf_app.Identity.Domain.{canonical}
use falco_ctf_app.AuthPolicy.Roster.{Roster, resolve}
use falco_ctf_app.AuthPolicy.Server.{
  Headers, Reply, Response, not_built, unreachable, answered, Handler, call_upstream,
  upstream_failed, is_admin, propagate_identity, stamp_canonical, check_workspace,
  check_participant, check_admin, workspace_seat,
}

-- What it takes to enter the workspace of a seat.
pub record MayEnter (h : Handler) (host : Text) (reply : Reply) : Type 0 where
  pub headers : Headers
  pub accepted : reply ≡ answered 202 headers
  pub seat : match_seat host ≡ true
  pub no_admin : is_admin h headers.email ≡ false
  pub resolved : resolve h.roster headers.email ≡ some host

-- An answer that lets a seat in, as that seat.
pub record IsOwn (h : Handler) (seat : Text) (r : Response) : Type 0 where
  pub status : r.status ≡ 200
  pub user : r.user ≡ some seat
  pub preferred_username : r.preferred_username ≡ some seat
  pub email :
      (roster : Roster) × (h.roster ≡ some roster)
      × (r.email ≡ some (seat ++ (text "@" ++ roster.domain)))

has_roster :
    (o : Option Roster) (email : Text) {seat : Text}
    → resolve o email ≡ some seat
    → (roster : Roster) × (o ≡ some roster)
unfolding resolve
has_roster none email e = absurd (ground (arith, e))
has_roster (some roster) email e = (roster, refl)

stamp_canonical-IsOwn :
    (h : Handler) (seat : Text) (roster : Roster)
    → h.roster ≡ some roster
    → IsOwn h seat (stamp_canonical h seat)
unfolding stamp_canonical canonical
stamp_canonical-IsOwn h seat roster known = record {
  status = refl;
  user = refl;
  preferred_username = refl;
  email = (roster, known, rw known refl);
}

workspace_accepted :
    (h : Handler) (host : Text) (headers : Headers)
    → match_seat host ≡ true
    → is_admin h headers.email ≡ false
    → check_workspace h host (answered 202 headers)
      ≡ workspace_seat h host (resolve h.roster headers.email)
unfolding check_workspace call_upstream upstream_failed match_seat
workspace_accepted h [] headers seat outsider = absurd (ground arith)
workspace_accepted h (c ∷ cs) headers seat outsider = rw (seat, outsider) refl

-- Only an answer of 202 lets anybody through.
workspace_status :
    (h : Handler) (host : Text) (reply : Reply)
    → (check_workspace h host reply).status ≡ 200
    → (match_seat host ≡ true)
      × ((headers : Headers) × (reply ≡ answered 202 headers) × (is_admin h headers.email ≡ false))
unfolding check_workspace call_upstream upstream_failed
workspace_status h host not_built k = absurd (ground (arith, k))
workspace_status h host unreachable k = absurd (ground (arith, k))
workspace_status h host (answered n headers) k = elim (Bool-cases (n == 202)) [
  | inl yes_202 ↦
      let same : n ≡ 202 = (nat_eq.beq_iff n 202).0 yes_202 in
      (ground (arith, k), (headers, ap (λ m. answered m headers) same, ground (arith, k)))
  | inr other ↦ absurd (ground (arith, k))
]

-- check-workspace answers 200 exactly to a seat's own host: the host is a seat name, oauth2-proxy
-- has accepted the identity, the identity is no admin's, and the roster resolves it to that seat.
-- The answer then carries the seat's identity in the three headers: as the user and the preferred
-- user name the seat, and as the email the seat at the domain of the roster.
pub check_workspace_iff :
    (h : Handler) (host : Text) (reply : Reply)
    → ((check_workspace h host reply).status ≡ 200 → MayEnter h host reply)
      × (MayEnter h host reply → IsOwn h host (check_workspace h host reply))
check_workspace_iff h host reply = (λ k. entered k, λ m. enters m)
  where
    entered : (check_workspace h host reply).status ≡ 200 → MayEnter h host reply
    entered k =
        let (seat, (headers, accepted, outsider)) = workspace_status h host reply k in
        let reached : (workspace_seat h host (resolve h.roster headers.email)).status ≡ 200 =
          sym (
            ap (λ r. r.status)
              (ap (check_workspace h host) accepted
                ∙ workspace_accepted h host headers seat outsider))
          ∙ k in
        record {
          headers = headers;
          accepted = accepted;
          seat = seat;
          no_admin = outsider;
          resolved = elim (Option-cases (resolve h.roster headers.email)) [
            | inl nobody ↦ absurd (ground (arith, rw nobody at reached))
            | inr (own, found) ↦ elim (Bool-cases (own == host)) [
              | inl same ↦ found ∙ ap some ((text_eq.beq_iff own host).0 same)
              | inr other ↦ absurd (ground (arith, rw (found, other) at reached))
            ]
          ];
        }

    stamped : MayEnter h host reply → check_workspace h host reply ≡ stamp_canonical h host
    stamped m =
        ap (check_workspace h host) m.accepted
        ∙ workspace_accepted h host m.headers m.seat m.no_admin
        ∙ rw (m.resolved, ==_refl host) refl

    enters : MayEnter h host reply → IsOwn h host (check_workspace h host reply)
    enters m =
        let (roster, known) = has_roster h.roster m.headers.email m.resolved in
        rw (stamped m) (stamp_canonical-IsOwn h host roster known)

-- One answer of oauth2-proxy that opens two workspaces opens one: the hosts are the same; and it
-- is refused with 403 at the operator's hosts.
pub check_workspace_alone :
    (h : Handler) (host other : Text) (reply : Reply)
    → (check_workspace h host reply).status ≡ 200
    → (check_workspace h other reply).status ≡ 200
    → (other ≡ host) × ((check_admin h reply).status ≡ 403)
unfolding check_admin call_upstream upstream_failed
check_workspace_alone h host other reply k k' =
    let m = (check_workspace_iff h host reply).0 k in
    let m' = (check_workspace_iff h other reply).0 k' in
    let same : m.headers.email ≡ m'.headers.email = ground (arith, m.accepted, m'.accepted) in
    (
      ground (arith, m.resolved, m'.resolved, ap (resolve h.roster) same),
      rw (m.accepted, m.no_admin) refl,
    )

-- The three ways check-participant answers: an admin's identity is passed on as it came, a seat's
-- is replaced by the canonical form, and nobody else is let through or given an identity.
pub check_participant-cases :
    (h : Handler) (reply : Reply)
    → let r = check_participant h reply in
      ((headers : Headers) × (is_admin h headers.email ≡ true)
        × (r ≡ propagate_identity headers "ok_admin"))
      ⊎ ((headers : Headers) × (is_admin h headers.email ≡ false)
          × ((seat : Text) × (resolve h.roster headers.email ≡ some seat)
              × (r ≡ stamp_canonical h seat)))
      ⊎ ((r.status ≢ 200) × (r.email ≡ none) × (r.user ≡ none) × (r.preferred_username ≡ none))
unfolding check_participant call_upstream upstream_failed
check_participant-cases h not_built = inr (inr (λ e. absurd (ground (arith, e)), refl, refl, refl))
check_participant-cases h unreachable =
    inr (inr (λ e. absurd (ground (arith, e)), refl, refl, refl))
check_participant-cases h (answered n headers) = elim (Bool-cases (n == 401)) [
  | inl refused ↦ rw refused (inr (inr (λ e. absurd (ground (arith, e)), refl, refl, refl)))
  | inr known ↦ elim (Bool-cases (n == 202)) [
    | inr odd ↦ rw (known, odd) (inr (inr (λ e. absurd (ground (arith, e)), refl, refl, refl)))
    | inl accepted ↦ elim (Bool-cases (is_admin h headers.email)) [
      | inl admin ↦ rw (known, accepted, admin) (inl (headers, admin, refl))
      | inr outsider ↦ elim (Option-cases (resolve h.roster headers.email)) [
        | inl nobody ↦
            rw (known, accepted, outsider, nobody)
              (inr (inr (λ e. absurd (ground (arith, e)), refl, refl, refl)))
        | inr (seat, found) ↦
            rw (known, accepted, outsider, found)
              (inr (inl (headers, outsider, (seat, found, refl))))
      ]
    ]
  ]
]

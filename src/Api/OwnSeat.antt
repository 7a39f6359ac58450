-- ===== src/Api/OwnSeat.antt =====
-- The identity that auth-policy stamps for a seat, at the gate of the scoreboard.
use mathlib.Core.List.{append_cancel_right}
use falco_ctf_app.Prelude.{
  ◌≡◌, refl, sym, ap, ◌∙◌, ◌↔◌, inl, inr, true, false, not, ◌||◌, none, List, [], ◌∷◌, ◌==◌, arith,
  all, &&-eq-true, Bool-cases, nat_eq, ==_refl,
}
use falco_ctf_app.Prelude.Maps.{Map, has}
use falco_ctf_app.Prelude.Results.{ok}
use falco_ctf_app.Prelude.Text.{
  Text, text_eq, is_empty, trim_space, trim_space_plain, lower, to_lower, all-append,
}
use falco_ctf_app.Identity.Domain.{canonical}
use falco_ctf_app.AuthPolicy.Parts.{
  is_lowered, is_part_char, NormalLocal, NormalDomain, part_join, canonical_filled,
}
use falco_ctf_app.AuthPolicy.Roster.{Roster, Decoded, parse_roster}
use falco_ctf_app.AuthPolicy.Canonical.{match_seat-NormalLocal, parse_roster-Wellformed}
use falco_ctf_app.Api.Gates.{self_or_admin, email_matches_user}

to_lower_lowered : (s : Text) → all is_lowered s ≡ true → to_lower s ≡ s
unfolding to_lower lower
to_lower_lowered [] h = refl
to_lower_lowered (c ∷ cs) h = ground (arith, to_lower_lowered cs)

lowered_of_part : (s : Text) → all is_part_char s ≡ true → all is_lowered s ≡ true
lowered_of_part [] h = refl
lowered_of_part (c ∷ cs) h = ground (arith, lowered_of_part cs)

lowered_join :
    (l d : Text)
    → all is_part_char l ≡ true
    → all is_part_char d ≡ true
    → all is_lowered (canonical l d) ≡ true
unfolding canonical
lowered_join l d h k =
    rw (all-append is_lowered l (b'@' ∷ d), lowered_of_part l h, lowered_of_part d k) refl

-- Neither trimming nor lower-casing changes it.
canonical_read :
    (l d : Text)
    → NormalLocal l
    → NormalDomain d
    → to_lower (trim_space (canonical l d)) ≡ canonical l d
canonical_read l d n m =
    ap to_lower (trim_space_plain (canonical l d) (part_join l d n.chars m.chars))
    ∙ to_lower_lowered (canonical l d) (lowered_join l d n.chars m.chars)

same_seat : (l d user : Text) → email_matches_user (canonical l d) user d ≡ true → user ≡ l
unfolding email_matches_user canonical
same_seat l d user own =
    let both =
      &&-eq-true (not (is_empty (canonical l d) || is_empty user || is_empty d))
        (canonical l d == canonical user d) own in
    append_cancel_right user l (b'@' ∷ d)
      (sym ((text_eq.beq_iff (canonical l d) (canonical user d)).0 both.1))

matches_itself :
    (l d : Text) → NormalLocal l → NormalDomain d → email_matches_user (canonical l d) l d ≡ true
unfolding email_matches_user
matches_itself l d n m = rw (canonical_filled l d, n.filled, m.filled, ==_refl (canonical l d)) refl

-- The gate lets the identity of one seat through for one user.
canonical_passes :
    (admins : Map Text (Unit {0})) (l d user : Text)
    → NormalLocal l
    → NormalDomain d
    → has (canonical l d) admins ≡ false
    → (self_or_admin admins d (canonical l d) user ≡ none) ↔ (user ≡ l)
unfolding self_or_admin
canonical_passes admins l d user n m outsider = (
  λ e. elim (Bool-cases (email_matches_user (canonical l d) user d)) [
    | inl own ↦ same_seat l d user own
    | inr other ↦
        absurd
          (ground (arith, rw (canonical_read l d n m, canonical_filled l d, outsider, other) at e))
  ],
  λ same.
      rw (canonical_read l d n m, canonical_filled l d, outsider, same, matches_itself l d n m)
        refl,
)

-- The identity that auth-policy stamps for a seat of an accepted roster passes the scoreboard's
-- participant gate, configured with the same domain, exactly for that seat's own name, unless the
-- identity is an admin's at the scoreboard.
pub seat_identity-own :
    (decoded : Decoded) (domain : Text) (raw : List Text) (seat user : Text)
    (admins : Map Text (Unit {0})) {r : Roster}
    → parse_roster decoded domain raw ≡ ok r
    → has seat r.seats ≡ true
    → has (canonical seat r.domain) admins ≡ false
    → (self_or_admin admins r.domain (canonical seat r.domain) user ≡ none) ↔ (user ≡ seat)
seat_identity-own decoded domain raw seat user admins {r} parsed seated outsider =
    let w = parse_roster-Wellformed decoded domain raw parsed in
    canonical_passes admins seat r.domain user (match_seat-NormalLocal seat (w.seats seat seated))
      w.domain outsider

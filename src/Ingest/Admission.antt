-- ===== src/Ingest/Admission.antt =====
-- The gates of receive that come before the limiters.
use falco_ctf_app.Prelude.{
  ℕ, ◌≡◌, refl, sym, inl, inr, ◌∙◌, Bool, true, false, ◌&&◌, List, [], ◌∷◌, map, ◌==◌, nat_eq, any,
  all, arith, is_some, Bool-cases, &&-eq-true, if◌then◌else◌,
}
use falco_ctf_app.Prelude.Text.{Text, text, lower, strip_prefix}
use falco_ctf_app.RateLimit.Floats.{Floats}
use falco_ctf_app.Ingest.Events.{
  Request, is_token, raise, canonicalise, canonical_header_key, is_proxy_key,
  has_proxy_identity_header,
}
use falco_ctf_app.Ingest.Handler.{Handler, Clock, received, error, reply, count, admit, receive}

-- A letter in the case that the canonical form gives it is met by either case.
canon_head :
    (up : Bool) (p c : ℕ)
    → (if up then raise p else lower p) ≡ p
    → (p == (if up then raise c else lower c)) ≡ (lower p == lower c)
unfolding lower
canon_head true p c h = ground arith
canon_head false p c h = ground arith

canon_dash :
    (up : Bool) (p c : ℕ)
    → (p == (if up then raise c else lower c)) ≡ true
    → (c == b'-') ≡ (p == b'-')
unfolding lower
canon_dash true p c h = ground arith
canon_dash false p c h = ground arith

pub strip_prefix-canonicalise :
    (up : Bool) (p k : Text)
    → canonicalise up p ≡ p
    → is_some (strip_prefix p (canonicalise up k))
      ≡ is_some (strip_prefix (map lower p) (map lower k))
unfolding strip_prefix canonicalise
strip_prefix-canonicalise up [] k h = refl
strip_prefix-canonicalise up (p ∷ ps) [] h = refl
strip_prefix-canonicalise up (p ∷ ps) (c ∷ cs) h =
    let first : (if up then raise p else lower p) ≡ p = cc h in
    let more : canonicalise (p == b'-') ps ≡ ps = cc h in
    elim (Bool-cases (p == (if up then raise c else lower c))) [
      | inl same ↦
          rw (sym (canon_head up p c first), same, canon_dash up p c same)
            (strip_prefix-canonicalise (p == b'-') ps cs more)
      | inr other ↦ rw (sym (canon_head up p c first), other) refl
    ]

-- The header keys of oauth2-proxy, in any case of their letters.
abbrev pub is_browser_key : Text → Bool
is_browser_key k = all is_token k && is_some (strip_prefix (text "x-auth-request-") (map lower k))

is_proxy_key_of_browser_key : (k : Text) → is_browser_key k ≡ true → is_proxy_key k ≡ true
unfolding is_proxy_key canonical_header_key
is_proxy_key_of_browser_key k h =
    let both =
      &&-eq-true (all is_token k) (is_some (strip_prefix (text "x-auth-request-") (map lower k)))
        h in
    rw both.0 (
      strip_prefix-canonicalise true (text "X-Auth-Request-") k (unfold canonicalise lower in refl)
      ∙ unfold lower in both.1)

any_mono :
    {A : Type 0} (p q : A → Bool)
    → ((x : A) → p x ≡ true → q x ≡ true)
    → (xs : List A) → any p xs ≡ true
    → any q xs ≡ true
any_mono p q f [] h = h
any_mono p q f (x ∷ xs) h = ground (arith, f x, any_mono p q f xs)

module _ (fl : Floats) where
  -- A request that carries a header whose key is made of the characters of a header key and starts
  -- with X-Auth-Request- in any case of the letters is answered 403, and leaves the store, the
  -- grader and every limiter as they were: only the metric of refused requests is counted.
  pub receive_browser :
      (c : Clock) (r : Request) (h : Handler fl)
      → any is_browser_key r.header_keys ≡ true
      → receive fl c r h ≡ (reply 403 (error "forbidden"), count fl (received "forbidden") h)
  unfolding receive admit has_proxy_identity_header
  receive_browser c r h browser =
      rw (any_mono is_browser_key is_proxy_key is_proxy_key_of_browser_key r.header_keys browser)
        refl

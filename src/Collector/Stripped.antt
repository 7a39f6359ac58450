-- ===== src/Collector/Stripped.antt =====
-- The keys that stripAuthRequestHeaders of internal/collector/collector.go leaves, beside those that
-- the scoreboard takes for a proven identity.
use falco_ctf_app.Prelude.{
  ℕ, ◌≡◌, ◌⊎◌, refl, ap, sym, ◌∙◌, inl, inr, Bool, true, false, List, [], ◌∷◌, map, any, all,
  nat_eq, ◌==◌, arith, ltb, is_some, Bool-cases,
}
use falco_ctf_app.Prelude.Maps.{insert, delete_where}
use falco_ctf_app.Prelude.Text.{Text, text, text_eq, strip_prefix, to_lower, lower, lower_rune}
use falco_ctf_app.Ingest.Events.{is_proxy_key, canonical_header_key, is_token, canonicalise}
use falco_ctf_app.Ingest.Admission.{strip_prefix-canonicalise}
use falco_ctf_app.Collector.{Header, auth_request_prefix, is_auth_request_key}

-- A prefix of ASCII letters in lower case stays one under either lower-casing.
strip_prefix-lower :
    (p k : Text)
    → is_some (strip_prefix p k) ≡ true
    → is_some (strip_prefix (map lower p) (map lower k)) ≡ true
unfolding strip_prefix
strip_prefix-lower [] k h = refl
strip_prefix-lower (p ∷ ps) [] h = absurd (ground arith)
strip_prefix-lower (p ∷ ps) (c ∷ cs) h = ground (
  arith,
  strip_prefix-lower ps cs,
  ap lower,
  nat_eq.beq_iff p c,
  nat_eq.beq_iff (lower p) (lower c),
)

lower_rune_ascii : (p c : ℕ) → ltb p 128 ≡ true → (p == lower c) ≡ true → (p == lower_rune c) ≡ true
unfolding lower
lower_rune_ascii p c a h = ground arith

strip_prefix-to_lower :
    (p k : Text)
    → all (λ c. ltb c 128) p ≡ true
    → is_some (strip_prefix p (map lower k)) ≡ true
    → is_some (strip_prefix p (to_lower k)) ≡ true
unfolding strip_prefix to_lower
strip_prefix-to_lower [] k a h = refl
strip_prefix-to_lower (p ∷ ps) [] a h = absurd (ground arith)
strip_prefix-to_lower (p ∷ ps) (c ∷ cs) a h = elim (Bool-cases (p == lower c)) [
  | inr other ↦ absurd (ground (arith, rw other at h))
  | inl same ↦
      rw (lower_rune_ascii p c (ground arith) same)
        (strip_prefix-to_lower ps cs (ground arith) (rw same at h))
]

-- Every key that the scoreboard takes for one of oauth2-proxy is one that the collector strips.
pub stripped_key : (k : Text) → is_proxy_key k ≡ true → is_auth_request_key k ≡ true
unfolding is_proxy_key canonical_header_key
stripped_key k h =
    strip_prefix-to_lower auth_request_prefix k refl
      (unfold lower in lowered (Bool-cases (all is_token k)))
  where
    lowered :
        (all is_token k ≡ true) ⊎ (all is_token k ≡ false)
        → is_some (strip_prefix (map lower (text "X-Auth-Request-")) (map lower k)) ≡ true
    lowered (inl token) =
        sym (
          strip_prefix-canonicalise true (text "X-Auth-Request-") k
            (unfold canonicalise lower in refl))
        ∙ rw token at h
    lowered (inr other) = strip_prefix-lower (text "X-Auth-Request-") k (rw other at h)

abbrev pub keys : Header → List Text
keys h = map (λ e. e.0) h

-- What no deletion and no write of another header brings back.
pub any-delete_where :
    (p q : Text → Bool) (h : Header)
    → any p (keys h) ≡ false
    → any p (keys (delete_where q h)) ≡ false
unfolding delete_where
any-delete_where p q [] n = refl
any-delete_where p q ((k, v) ∷ h) n = elim (Bool-cases (q k)) [
  | inl e ↦ rw e (any-delete_where p q h (ground arith))
  | inr e ↦ rw e (ground (arith, any-delete_where p q h))
]

pub any-deleted :
    (p q : Text → Bool)
    → ((k : Text) → p k ≡ true → q k ≡ true)
    → (h : Header) → any p (keys (delete_where q h)) ≡ false
unfolding delete_where
any-deleted p q f [] = refl
any-deleted p q f ((k, v) ∷ h) = elim (Bool-cases (q k)) [
  | inl e ↦ rw e (any-deleted p q f h)
  | inr e ↦ rw e (ground (arith, any-deleted p q f h, f k))
]

pub any-insert :
    (p : Text → Bool) (k : Text) (v : List Text) (h : Header)
    → p k ≡ false
    → any p (keys h) ≡ false
    → any p (keys (insert k v h)) ≡ false
unfolding insert
any-insert p k v [] a n = ground arith
any-insert p k v ((i, old) ∷ h) a n = elim (Bool-cases (i == k)) [
  | inl e ↦ rw e (ground arith)
  | inr e ↦ rw e (ground (arith, any-insert p k v h a))
]

-- ===== src/OriginGuard/Admission.antt =====
-- Which requests the guard lets through to the handler behind it.
use falco_ctf_app.Prelude.{
  ◌≡◌, refl, nat_eq, ◌++◌, contains, true, Bool, false, ◌&&◌, ◌||◌, not, Option, none, some, List,
  [], ◌∷◌, any, arith, ◌==◌, if◌then◌else◌, inl, inr, Bool-cases, Option-cases,
}
use falco_ctf_app.Prelude.Maps.{Map, has, insert, lookup-empty, has-insert}
use falco_ctf_app.Prelude.Text.{Text, text, text_eq, is_empty, trim_space}
use falco_ctf_app.OriginGuard.{
  Url, Headers, Guard, Guarded, served, denied, origin_of_url, origin_of_parsed, origin_of,
  allowed_set, new_guard, middleware,
}

abbrev pub colon_free : Text → Bool
colon_free t = not (contains t b':')

-- Two texts before a colon and two after it are the same where the joined texts are.
beq-joined :
    (a b h k : Text)
    → colon_free a ≡ true
    → colon_free b ≡ true
    → ((a ++ (text "://" ++ h)) == (b ++ (text "://" ++ k))) ≡ (a == b && h == k)
beq-joined [] [] h k p q = ground arith
beq-joined [] (y ∷ ys) h k p q = ground (arith, nat_eq.beq_iff b':' y, nat_eq.beq_iff y b':')
beq-joined (x ∷ xs) [] h k p q = ground (arith, nat_eq.beq_iff b':' x, nat_eq.beq_iff x b':')
beq-joined (x ∷ xs) (y ∷ ys) h k p q = ground (arith, beq-joined xs ys h k)

module _ (parse : Text → Option Url) (to_lower : Text → Text) where
  -- A URL that names an origin: it has a scheme and a host.
  abbrev pub is_absolute : Url → Bool
  is_absolute u = not (is_empty u.scheme) && not (is_empty u.host)

  -- Two URLs of one origin: their schemes and their hosts, with the port, are the same but for the
  -- case of letters.
  abbrev pub same_origin : Url → Url → Bool
  same_origin u v =
      (is_absolute u && is_absolute v)
      && (to_lower u.scheme == to_lower v.scheme && to_lower u.host == to_lower v.host)

  abbrev pub of_one_origin : Option Url → Option Url → Bool
  of_one_origin (some u) (some v) = same_origin u v
  of_one_origin _ _ = false

  -- What a request claims to come from: the URL in Origin where it has one, else that in Referer.
  abbrev pub claimed : Headers → Option Url
  claimed r =
      if not (is_empty r.origin)
      then parse r.origin
      else if not (is_empty r.referer)
      then parse r.referer
      else none

  -- An entry of the configuration stands for the origin of the URL that it is, once trimmed.
  abbrev pub names : Option Url → Text → Bool
  names u entry = not (is_empty (trim_space entry)) && of_one_origin (parse (trim_space entry)) u

  abbrev pub trusted : List Text → Option Url → Bool
  trusted entries u = any (names u) entries

  abbrev pub outcome :
      {A S : Type 0} → List Text → Headers → (S → A × S) → S → Guarded A × S × Guard
  outcome entries r next s = middleware parse to_lower (new_guard parse to_lower entries) r next s

  is_origin : Option Text → Option Text → Bool
  is_origin (some o) (some norm) = norm == o
  is_origin _ _ = false

  -- What the guard's set has of an entry.
  admits : Option Text → Text → Bool
  unfolding is_origin
  admits o entry =
      not (is_empty (trim_space entry)) && is_origin o (origin_of parse to_lower (trim_space entry))

  has-allowed_set :
      (o : Text) (entries : List Text) (set : Map Text (Unit {0}))
      → has o (allowed_set parse to_lower entries set)
        ≡ (any (admits (some o)) entries || has o set)
  unfolding allowed_set admits
  has-allowed_set o [] set = refl
  has-allowed_set o (entry ∷ rest) set = elim (Bool-cases (is_empty (trim_space entry))) [
    | inl e ↦ rw e (has-allowed_set o rest set)
    | inr e ↦ rw e (elim (Option-cases (origin_of parse to_lower (trim_space entry))) [
      | inl f ↦ rw f (has-allowed_set o rest set)
      | inr (norm, f) ↦
          rw f
            (ground (arith, has-allowed_set o rest (insert norm tt set), has-insert norm o tt set))
    ])
  ]

  has-new_guard :
      (o : Text) (entries : List Text)
      → has o (new_guard parse to_lower entries).allowed ≡ any (admits (some o)) entries
  unfolding new_guard
  has-new_guard o entries =
      ground (arith, has-allowed_set o entries [], lookup-empty {V = Unit {0}} o)

  any-admits-none : (entries : List Text) → any (admits none) entries ≡ false
  unfolding admits
  any-admits-none [] = refl
  any-admits-none (entry ∷ rest) = ground (arith, any-admits-none rest)

  is_origin-of_url :
      (u v : Url)
      → colon_free (to_lower u.scheme) ≡ true
      → colon_free (to_lower v.scheme) ≡ true
      → same_origin v u
        ≡ is_origin (origin_of_url parse to_lower u) (origin_of_url parse to_lower v)
  unfolding is_origin
  is_origin-of_url u v p q = ground (
    arith,
    beq-joined (to_lower v.scheme) (to_lower u.scheme) (to_lower v.host) (to_lower u.host) q p,
  )

  -- url.Parse finds no colon in a scheme, and strings.ToLower makes none of another character.
  module _ (schemes : (t : Text) (u : Url) → parse t ≡ some u → colon_free u.scheme ≡ true)
      (lowers : (t : Text) → colon_free t ≡ true → colon_free (to_lower t) ≡ true) where
    of_one_origin_lem :
        (t e : Text) (u v : Option Url)
        → parse t ≡ u
        → parse e ≡ v
        → of_one_origin v u
          ≡ is_origin (origin_of_parsed parse to_lower u) (origin_of_parsed parse to_lower v)
    unfolding is_origin
    of_one_origin_lem t e none none f g = refl
    of_one_origin_lem t e none (some v) f g = refl
    of_one_origin_lem t e (some u) none f g = ground arith
    of_one_origin_lem t e (some u) (some v) f g =
        is_origin-of_url u v (lowers _ (schemes t u f)) (lowers _ (schemes e v g))

    is_origin_lem :
        (t e : Text)
        → of_one_origin (parse e) (parse t)
          ≡ is_origin (origin_of parse to_lower t) (origin_of parse to_lower e)
    unfolding origin_of
    is_origin_lem t e = of_one_origin_lem t e (parse t) (parse e) refl refl

    any-names :
        (t : Text) (entries : List Text)
        → any (names (parse t)) entries ≡ any (admits (origin_of parse to_lower t)) entries
    unfolding admits
    any-names t [] = refl
    any-names t (entry ∷ rest) = rw (is_origin_lem t (trim_space entry), any-names t rest) refl

    any-names-none : (entries : List Text) → any (names none) entries ≡ false
    any-names-none [] = refl
    any-names-none (entry ∷ rest) = elim (Option-cases (parse (trim_space entry))) [
      | inl g ↦ rw g (ground (arith, any-names-none rest))
      | inr (v, g) ↦ rw g (ground (arith, any-names-none rest))
    ]

    module _ {A S : Type 0} (entries : List Text) (r : Headers) (next : S → A × S) (s : S) where
      -- Where url.Parse finds no colon in a scheme and strings.ToLower makes none: the handler
      -- runs, on the state as it is, where the URL that the request claims has the scheme and the
      -- host, but for case, of an entry of the configuration; otherwise the answer is the refusal,
      -- and the state stays as it is. A Referer is not read where there is an Origin. The guard's
      -- set stays as it is.
      pub middleware_lem :
          Path
            (Guarded A × S)
            ((outcome entries r next s).0, (outcome entries r next s).1)
            (if trusted entries (claimed r) then (served (next s).0, (next s).1) else (denied, s))
          × ((outcome entries r next s).2.allowed ≡ (new_guard parse to_lower entries).allowed)
      unfolding middleware
      middleware_lem = elim (Bool-cases (is_empty r.origin)) [
        | inr e ↦
            rw (e, any-names r.origin entries)
              (elim (Option-cases (origin_of parse to_lower r.origin)) [
                | inl f ↦ rw (f, any-admits-none entries) (refl, refl)
                | inr (o, f) ↦ rw f (ground (arith, has-new_guard o entries))
              ])
        | inl e ↦ rw e (elim (Bool-cases (is_empty r.referer)) [
          | inl f ↦ rw (f, any-names-none entries) (refl, refl)
          | inr f ↦
              rw (f, any-names r.referer entries)
                (elim (Option-cases (origin_of parse to_lower r.referer)) [
                  | inl g ↦ rw (g, any-admits-none entries) (refl, refl)
                  | inr (o, g) ↦ rw g (ground (arith, has-new_guard o entries))
                ])
        ])
      ]

-- ===== src/Web/Guarded.antt =====
-- app/feedserver/auth.py: what the middleware lets through.
use instadroid.Prelude.{
  ◌≡◌, ◌≢◌, ◌↔◌, ◌⊎◌, refl, sym, ap, ◌∙◌, inl, inr, Bool, true, false, not, ◌&&◌, ◌||◌, Option,
  none, some, [], ◌∷◌, ◌++◌, arith, Text, codes, text_eq, text_eq_iff, contains, any, starts_with,
  starts_with_head, starts_with-drop, drop, if◌then◌else◌, Bool-cases, Option-cases,
}
use instadroid.Prelude.Strip.{strip}
use instadroid.Feed.Cards.{is_empty}
use instadroid.Web.Auth.{
  Request, Crypto, partition, rstrip_slash, is_ascii, compare_digest, Reply, passed_on, refused,
  crashed, presented_by, is_signed, presents, authorized, is_safe_method, cross_site, reply_of,
  require_token,
}

abbrev pub media : Text
media = codes "/media/"

is_empty-nil : (t : Text) → is_empty t ≡ true → t ≡ []
unfolding is_empty
is_empty-nil [] h = refl
is_empty-nil (c ∷ t) h = cc

module _ (c : Crypto) where
  -- not a write that a browser sent on another site's behalf
  abbrev pub FromHere : Text → Text → Text → Option Text → Type 0
  FromHere public_url base method none = Unit
  FromHere public_url base method (some origin) =
      (is_safe_method c method ≡ true)
      ⊎ (origin ≡ [])
      ⊎ (rstrip_slash origin ≡ public_url)
      ⊎ (rstrip_slash origin ≡ base)

  -- a media file asked for with its signature
  abbrev pub HasSignature : Request → Type 0
  HasSignature r = (file : Text) × (r.path ≡ media ++ file) × (r.sig ≡ c.media_sig file)

  -- a media file asked for with a signature that is not ASCII
  abbrev pub IsGarbled : Request → Type 0
  IsGarbled r = (file : Text) × (r.path ≡ media ++ file) × (is_ascii r.sig ≡ false)

  -- the token in the Authorization header: a bearer, or the password of a basic one
  abbrev pub Carries : Text → Request → Type 0
  Carries token r =
      ((c.lower (partition r.authorization).0 ≡ codes "bearer")
        × (strip (partition r.authorization).1 ≡ token))
      ⊎ ((c.lower (partition r.authorization).0 ≡ codes "basic")
          × (c.password (strip (partition r.authorization).1) ≡ some token))

  abbrev pub Presents : Text → Request → Type 0
  Presents token r = (r.token ≡ token) ⊎ Carries token r

  -- what cross_site() says of an Origin
  allowed :
      (public_url base method o : Text)
      → (if is_safe_method c method || is_empty o
          then false
          else not (contains (rstrip_slash o) (public_url ∷ base ∷ [])))
        ≡ false
      → FromHere public_url base method (some o)
  unfolding contains
  allowed public_url base method o h = elim (Bool-cases (is_safe_method c method)) [
    | inl safe ↦ inl safe
    | inr write ↦ elim (Bool-cases (is_empty o)) [
      | inl none_given ↦ inr (inl (is_empty-nil o none_given))
      | inr given ↦ elim (Bool-cases (text_eq public_url (rstrip_slash o))) [
        | inl e ↦ inr (inr (inl (sym ((text_eq_iff public_url (rstrip_slash o)).0 e))))
        | inr n ↦ inr (
            inr (
              inr
                (sym ((text_eq_iff base (rstrip_slash o)).0 (ground (arith, h, write, given, n))))))
      ]
    ]
  ]

  not_allowed :
      (public_url base method o : Text)
      → FromHere public_url base method (some o)
      → (if is_safe_method c method || is_empty o
          then false
          else not (contains (rstrip_slash o) (public_url ∷ base ∷ [])))
        ≡ false
  unfolding contains is_empty
  not_allowed public_url base method o (inl safe) = ground (arith, safe)
  not_allowed public_url base method o (inr (inl e)) = rw e (ground arith)
  not_allowed public_url base method o (inr (inr (inl e))) =
      ground (arith, (text_eq_iff public_url (rstrip_slash o)).1 (sym e))
  not_allowed public_url base method o (inr (inr (inr e))) =
      ground (arith, (text_eq_iff base (rstrip_slash o)).1 (sym e))

  cross_site-FromHere :
      (public_url : Text) (r : Request)
      → (cross_site c public_url r ≡ false) ↔ FromHere public_url r.base r.method r.origin
  unfolding cross_site
  cross_site-FromHere public_url r = elim (Option-cases r.origin) [
    | inl e ↦ rw e (λ h. tt, λ h. refl)
    | inr (o, e) ↦
        rw e (allowed public_url r.base r.method o, not_allowed public_url r.base r.method o)
  ]

  media_file : (r : Request) → starts_with r.path media ≡ true → r.path ≡ media ++ drop 7 r.path
  media_file r h = starts_with-drop r.path media h

  -- one that is presented, of the token that is set
  same_token :
      (token p : Text)
      → is_empty token ≡ false
      → ((not (is_empty p) && text_eq p token) ≡ true) ↔ (p ≡ token)
  same_token token p full = (
    λ h. (text_eq_iff p token).0 (ground (arith, h)),
    λ e. rw e (ground (arith, full, (text_eq_iff token token).1 refl)),
  )

  one_token :
      (token p : Text)
      → is_empty token ≡ false
      → (any (λ q. not (is_empty q) && text_eq q token) (p ∷ []) ≡ true) ↔ (p ≡ token)
  unfolding any
  one_token token p full = (
    λ h. (same_token token p full).0 (ground (arith, h)),
    λ e. ground (arith, (same_token token p full).1 e),
  )

  decoded_token :
      (token : Text) (decoded : Option Text)
      → is_empty token ≡ false
      → (any
            (λ q. not (is_empty q) && text_eq q token)
            (elim decoded [ none ↦ [] | some p ↦ p ∷ [] ])
          ≡ true)
        ↔ (decoded ≡ some token)
  unfolding any
  decoded_token token none full = (λ h. cc, λ e. cc)
  decoded_token token (some p) full = (
    λ h. ap some ((one_token token p full).0 h),
    λ e. (let same : p ≡ token = cc in (one_token token p full).1 same),
  )

  -- by the scheme, the credentials, and what they decode to
  carried :
      (token scheme credentials : Text) (decoded : Option Text)
      → is_empty token ≡ false
      → (any
            (λ q. not (is_empty q) && text_eq q token)
            (if text_eq scheme (codes "bearer")
              then credentials ∷ []
              else (if text_eq scheme (codes "basic")
                  then (elim decoded [ none ↦ [] | some p ↦ p ∷ [] ])
                  else []))
          ≡ true)
        ↔ (((scheme ≡ codes "bearer") × (credentials ≡ token))
            ⊎ ((scheme ≡ codes "basic") × (decoded ≡ some token)))
  unfolding any
  carried token scheme credentials decoded full =
      elim (Bool-cases (text_eq scheme (codes "bearer"))) [
        | inl e ↦
            (let is : scheme ≡ codes "bearer" = (text_eq_iff scheme (codes "bearer")).0 e in
              rw e (
                (λ h. inl (is, (one_token token credentials full).0 h)),
                λ x. elim x [
                  | inl (s, t) ↦ (one_token token credentials full).1 t
                  | inr (s, t) ↦ cc
                ],
              ))
        | inr n ↦ elim (Bool-cases (text_eq scheme (codes "basic"))) [
          | inl e ↦
              (let is : scheme ≡ codes "basic" = (text_eq_iff scheme (codes "basic")).0 e in
                rw (n, e)
                  (
                    (λ h. inr (is, (decoded_token token decoded full).0 h)),
                    λ x. elim x [
                      | inl (s, t) ↦ ground (arith, n, (text_eq_iff scheme (codes "bearer")).1 s)
                      | inr (s, t) ↦ (decoded_token token decoded full).1 t
                    ],
                  ))
          | inr m ↦
              rw (n, m)
                (
                  (λ h. cc),
                  λ x. elim x [
                    | inl (s, t) ↦ ground (arith, n, (text_eq_iff scheme (codes "bearer")).1 s)
                    | inr (s, t) ↦ ground (arith, m, (text_eq_iff scheme (codes "basic")).1 s)
                  ],
                )
        ]
      ]

  carried-Carries :
      (token : Text) (r : Request)
      → is_empty token ≡ false
      → (any (λ p. not (is_empty p) && text_eq p token) (presented_by c r.authorization) ≡ true)
        ↔ Carries token r
  unfolding presented_by any
  carried-Carries token r full =
      carried token (c.lower (partition r.authorization).0) (strip (partition r.authorization).1)
        (c.password (strip (partition r.authorization).1)) full

  presents-Presents :
      (token : Text) (r : Request)
      → is_empty token ≡ false
      → (presents c token r ≡ true) ↔ Presents token r
  unfolding presents any
  presents-Presents token r full = (
    λ h. elim (Bool-cases (not (is_empty r.token) && text_eq r.token token)) [
      | inl e ↦ inl ((same_token token r.token full).0 e)
      | inr n ↦ inr ((carried-Carries token r full).0 (ground (arith, h, n)))
    ],
    λ x. elim x [
      | inl e ↦ ground (arith, (same_token token r.token full).1 e)
      | inr k ↦ ground (arith, (carried-Carries token r full).1 k)
    ],
  )

  -- what a reply says of the request
  abbrev pub IsJudged : Text → Text → Request → Reply → Type 0
  IsJudged token public_url r passed_on =
      FromHere public_url r.base r.method r.origin
      × ((r.path ≡ codes "/health") ⊎ HasSignature r ⊎ ((IsGarbled r → ⊥) × Presents token r))
  IsJudged token public_url r (refused status) =
      ((status ≡ 403) × (FromHere public_url r.base r.method r.origin → ⊥))
      ⊎ ((status ≡ 401)
          × FromHere public_url r.base r.method r.origin
          × (r.path ≢ codes "/health")
          × (HasSignature r → ⊥)
          × (IsGarbled r → ⊥)
          × (Presents token r → ⊥))
  IsJudged token public_url r crashed = FromHere public_url r.base r.method r.origin × IsGarbled r

  -- what is_signed() says, where a media signature is ASCII
  abbrev Signed : Request → Option Bool → Type 0
  Signed r none = IsGarbled r
  Signed r (some true) = HasSignature r
  Signed r (some false) = (HasSignature r → ⊥) × (IsGarbled r → ⊥)

  media_starts :
      (r : Request) (file : Text) → r.path ≡ media ++ file → starts_with r.path media ≡ true
  media_starts r file e = rw e (starts_with_head media file)

  not_signed : (r : Request) → starts_with r.path media ≡ false → HasSignature r → ⊥
  not_signed r other (file, e, s) = ground (arith, other, media_starts r file e)

  not_garbled : (r : Request) → starts_with r.path media ≡ false → IsGarbled r → ⊥
  not_garbled r other (file, e, s) = ground (arith, other, media_starts r file e)

  plain_sig : (r : Request) → is_ascii r.sig ≡ true → IsGarbled r → ⊥
  plain_sig r plain (file, e, s) = ground (arith, plain, s)

  wrong_sig :
      (r : Request) → text_eq r.sig (c.media_sig (drop 7 r.path)) ≡ false → HasSignature r → ⊥
  wrong_sig r differs (file, e, s) =
      let same : drop 7 r.path ≡ file = ap (drop 7) e in
      let right : text_eq r.sig (c.media_sig (drop 7 r.path)) ≡ true =
        (text_eq_iff r.sig (c.media_sig (drop 7 r.path))).1 (s ∙ sym (ap c.media_sig same)) in
      ground (arith, differs, right)

  -- the reply to a request that is neither foreign nor for the health check
  reply-IsJudged :
      (token public_url : Text) (r : Request) (o : Option Bool)
      → is_empty token ≡ false
      → FromHere public_url r.base r.method r.origin
      → r.path ≢ codes "/health"
      → Signed r o
      → IsJudged token public_url r
          (reply_of (elim o [ none ↦ none | some signed ↦ some (signed || presents c token r) ]))
  unfolding reply_of
  reply-IsJudged token public_url r none full here other h = (here, h)
  reply-IsJudged token public_url r (some true) full here other h = (here, inr (inl h))
  reply-IsJudged token public_url r (some false) full here other (unsigned, plain) =
      elim (Bool-cases (presents c token r)) [
        | inl e ↦ rw e (here, inr (inr (plain, (presents-Presents token r full).0 e)))
        | inr n ↦ rw n (
            inr (
              refl,
              here,
              other,
              unsigned,
              plain,
              λ p. ground (arith, n, (presents-Presents token r full).1 p),
            ))
      ]

  module _ (hex : (file : Text) → is_ascii (c.media_sig file) ≡ true) where
    is_signed-Signed : (r : Request) → Signed r (is_signed c r)
    unfolding is_signed compare_digest
    is_signed-Signed r = elim (Bool-cases (starts_with r.path media)) [
      | inr other ↦ rw other (not_signed r other, not_garbled r other)
      | inl there ↦ elim (Bool-cases (is_ascii r.sig)) [
        | inr wide ↦ rw (there, wide) (drop 7 r.path, media_file r there, wide)
        | inl plain ↦ elim (Bool-cases (text_eq r.sig (c.media_sig (drop 7 r.path)))) [
          | inl same ↦
              rw (there, plain, hex (drop 7 r.path), same)
                (
                  drop 7 r.path,
                  media_file r there,
                  (text_eq_iff r.sig (c.media_sig (drop 7 r.path))).0 same,
                )
          | inr differs ↦
              rw (there, plain, hex (drop 7 r.path), differs)
                (wrong_sig r differs, plain_sig r plain)
        ]
      ]
    ]

    -- Let a token be set, and let the signature of every media path be ASCII, as a hex digest is. Then a request
    -- is refused with 403 exactly if it is a write with the Origin of another site. Any other is passed on
    -- exactly if it is for the health check, has the signature of the media file it asks for, or presents the
    -- token, in the query or in the Authorization header; except that a media file asked for with a signature
    -- that is not ASCII raises a TypeError, whatever the token. All else is refused with 401.
    pub require_token-IsJudged :
        (token public_url : Text) (r : Request)
        → is_empty token ≡ false
        → IsJudged token public_url r (require_token c token public_url r)
    unfolding require_token authorized reply_of
    require_token-IsJudged token public_url r full = elim (Bool-cases (cross_site c public_url r)) [
      | inl foreign ↦
          rw foreign
            (inl (refl, λ here. ground (arith, foreign, (cross_site-FromHere public_url r).1 here)))
      | inr local ↦
          (let here = (cross_site-FromHere public_url r).0 local in
            elim (Bool-cases (text_eq r.path (codes "/health"))) [
              | inl health ↦
                  rw (local, full, health)
                    (here, inl ((text_eq_iff r.path (codes "/health")).0 health))
              | inr other ↦
                  rw (local, full, other)
                    (reply-IsJudged token public_url r (is_signed c r) full here
                      (λ e. ground (arith, other, (text_eq_iff r.path (codes "/health")).1 e))
                      (is_signed-Signed r))
            ])
    ]

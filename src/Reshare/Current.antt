-- ===== src/Reshare/Current.antt =====
-- The cache of thumbnails of app/instadroid/reshare.py: it changes nothing but the time taken.
use instadroid.Prelude.{
  ℕ, ◌+◌, ◌≤◌, ◌≡◌, refl, sym, ◌∙◌, ap, inl, inr, Option, none, some, List, [], ◌∷◌, arith, ltb,
  ◌==◌, ==_iff, if◌then◌else◌, Text, text_eq, text_eq_iff, length, Bool-cases, Option-cases,
}
use instadroid.Reshare.Thumbnails.{
  StoredFiles, Thumbnails, get, put, decoded, cached_or, read_thumbnails, with_image, keep_read,
  post_images,
}

module _ (Image : Type 0) (files : StoredFiles Image) where
  -- what a cached file still has, as far as its mtime tells, is what the cache holds of it
  abbrev pub IsCurrent : List (Text × Thumbnails Image) → Type 0
  IsCurrent cache =
      (name : Text) (mtime : ℕ) (t : Option Image)
      → get Image name cache ≡ some (mtime, t)
      → files.mtime name ≡ some mtime
      → files.decode name ≡ some t

  read_thumbnails-missing :
      (cache : List (Text × Thumbnails Image)) (name : Text)
      → files.mtime name ≡ none
      → read_thumbnails Image files cache name ≡ none
  unfolding read_thumbnails
  read_thumbnails-missing cache name e = rw (e, read_thumbnails) refl

  read_thumbnails-there :
      (cache : List (Text × Thumbnails Image)) (name : Text) (now : ℕ)
      → files.mtime name ≡ some now
      → read_thumbnails Image files cache name
        ≡ cached_or Image files name now (get Image name cache)
  unfolding read_thumbnails
  read_thumbnails-there cache name now e = rw (e, read_thumbnails) refl

  cached_or-decoded :
      (name : Text) (now : ℕ) (held : Option (Thumbnails Image))
      → ((t : Option Image) → held ≡ some (now, t) → files.decode name ≡ some t)
      → cached_or Image files name now held ≡ decoded Image files name now
  unfolding cached_or decoded
  cached_or-decoded name now none h = refl
  cached_or-decoded name now (some (mtime, t)) h = elim (Bool-cases (mtime == now)) [
    | inl e ↦
        (let same : mtime ≡ now = (==_iff mtime now).0 e in
          rw (e, same, h t (rw same refl), decoded) refl)
    | inr e ↦ rw e refl
  ]

  -- a read through the cache gives what a read of the file gives
  read_thumbnails-fresh :
      (cache : List (Text × Thumbnails Image)) (name : Text)
      → IsCurrent cache
      → read_thumbnails Image files cache name ≡ read_thumbnails Image files [] name
  unfolding get cached_or
  read_thumbnails-fresh cache name h = elim (Option-cases (files.mtime name)) [
    | inl e ↦ read_thumbnails-missing cache name e ∙ sym (read_thumbnails-missing [] name e)
    | inr (now, e) ↦
        read_thumbnails-there cache name now e
        ∙ (cached_or-decoded name now (get Image name cache) (λ t q. h name now t q e)
            ∙ sym (read_thumbnails-there [] name now e))
  ]

  decoded-current :
      (name : Text) (now mtime : ℕ) (t : Option Image)
      → decoded Image files name now ≡ some (mtime, t)
      → files.decode name ≡ some t
  unfolding decoded
  decoded-current name now mtime t h = elim (Option-cases (files.decode name)) [
    | inl e ↦ ground arith
    | inr (u, e) ↦ ground arith
  ]

  read_thumbnails-current :
      (cache : List (Text × Thumbnails Image)) (name : Text) (mtime : ℕ) (t : Option Image)
      → IsCurrent cache
      → read_thumbnails Image files cache name ≡ some (mtime, t)
      → files.decode name ≡ some t
  unfolding get cached_or
  read_thumbnails-current cache name mtime t h r = elim (Option-cases (files.mtime name)) [
    | inl e ↦ ground (arith, read_thumbnails-missing cache name e)
    | inr (now, e) ↦ decoded-current name now mtime t (
        sym (cached_or-decoded name now (get Image name cache) (λ u q. h name now u q e))
        ∙ (sym (read_thumbnails-there cache name now e) ∙ r))
  ]

  get-put :
      (name n : Text) (read : Thumbnails Image) (cache : List (Text × Thumbnails Image))
      → get Image n (put Image name read cache)
        ≡ (if text_eq name n then some read else get Image n cache)
  unfolding get put
  get-put name n read [] = refl
  get-put name n read ((m, t) ∷ cache) =
      ground
        (arith, text_eq_iff m name, text_eq_iff name n, text_eq_iff m n, get-put name n read cache)

  keep_read-IsCurrent :
      (cache_max : ℕ) (name : Text) (read : Thumbnails Image)
      (kept : List (Text × Thumbnails Image))
      → files.decode name ≡ some (read.1)
      → IsCurrent kept
      → IsCurrent (keep_read Image cache_max name read kept)
  unfolding keep_read
  keep_read-IsCurrent cache_max name (m, u) kept d h n mtime t g e =
      elim (Bool-cases (ltb (length kept) cache_max)) [
        | inr full ↦ ground (arith, h n mtime t)
        | inl room ↦ elim (Bool-cases (text_eq name n)) [
          | inl same ↦ ground (arith, text_eq_iff name n, get-put name n (m, u) kept)
          | inr other ↦ ground (arith, h n mtime t, get-put name n (m, u) kept)
        ]
      ]

  length-put :
      (name : Text) (read : Thumbnails Image) (kept : List (Text × Thumbnails Image))
      → length (put Image name read kept) ≤ length kept + 1
  unfolding put
  length-put name read [] = omega arith
  length-put name read ((n, t) ∷ kept) = ground (arith, length-put name read kept)

  keep_read-bounded :
      (cache_max : ℕ) (name : Text) (read : Thumbnails Image)
      (kept : List (Text × Thumbnails Image))
      → length kept ≤ cache_max
      → length (keep_read Image cache_max name read kept) ≤ cache_max
  unfolding keep_read
  keep_read-bounded cache_max name read kept h = ground (arith, length-put name read kept)

module _ (Image : Type 0) (files : StoredFiles Image) (cache_max : ℕ)
    (cache : List (Text × Thumbnails Image)) where
  post_images-nil :
      (kept : List (Text × Thumbnails Image))
      → post_images Image files cache_max cache [] kept ≡ ([], kept)
  unfolding post_images
  post_images-nil kept = refl

  post_images-skip :
      (id name : Text) (rows : List (Text × Text)) (kept : List (Text × Thumbnails Image))
      → read_thumbnails Image files cache name ≡ none
      → post_images Image files cache_max cache ((id, name) ∷ rows) kept
        ≡ post_images Image files cache_max cache rows kept
  unfolding post_images
  post_images-skip id name rows kept e = ground arith

  post_images-read :
      (id name : Text) (rows : List (Text × Text)) (kept : List (Text × Thumbnails Image))
      (read : Thumbnails Image)
      → read_thumbnails Image files cache name ≡ some read
      → post_images Image files cache_max cache ((id, name) ∷ rows) kept ≡ (
        with_image Image id read.1
            (post_images Image files cache_max cache rows
              (keep_read Image cache_max name read kept)).0,
        (post_images Image files cache_max cache rows (keep_read Image cache_max name read kept)).1,
      )
  unfolding post_images
  post_images-read id name rows kept read e = ground arith

module _ (Image : Type 0) (files : StoredFiles Image) (cache_max : ℕ)
    (cache : List (Text × Thumbnails Image)) (h : IsCurrent Image files cache) where
  -- A pass over the stored images with what the last pass cached gives the images that a pass without a
  -- cache gives, as long as a file whose mtime has not changed still decodes to what was cached. That
  -- holds of the cache it leaves too, which has at most THUMBNAIL_CACHE_MAX entries.
  pub post_images-IsCurrent :
      (rows : List (Text × Text)) (kept kept' : List (Text × Thumbnails Image))
      → IsCurrent Image files kept
      → length kept ≤ cache_max
      → ((post_images Image files cache_max cache rows kept).0
          ≡ (post_images Image files cache_max [] rows kept').0)
        × IsCurrent Image files (post_images Image files cache_max cache rows kept).1
        × (length (post_images Image files cache_max cache rows kept).1 ≤ cache_max)
  post_images-IsCurrent [] kept kept' k b =
      rw
        (
          post_images-nil Image files cache_max cache kept,
          post_images-nil Image files cache_max [] kept',
        )
        (refl, k, b)
  post_images-IsCurrent ((id, name) ∷ rows) kept kept' k b =
      elim (Option-cases (read_thumbnails Image files cache name)) [
        | inl e ↦
            rw
              (
                post_images-skip Image files cache_max cache id name rows kept e,
                post_images-skip Image files cache_max [] id name rows kept'
                    (sym (read_thumbnails-fresh Image files cache name h) ∙ e),
              )
              (post_images-IsCurrent rows kept kept' k b)
        | inr ((m, t), e) ↦
            (let (same, current, bounded) =
                post_images-IsCurrent rows (keep_read Image cache_max name (m, t) kept)
                  (keep_read Image cache_max name (m, t) kept')
                  (keep_read-IsCurrent Image files cache_max name (m, t) kept
                    (read_thumbnails-current Image files cache name m t h e) k)
                  (keep_read-bounded Image files cache_max name (m, t) kept b) in
              rw
                (
                  post_images-read Image files cache_max cache id name rows kept (m, t) e,
                  post_images-read Image files cache_max [] id name rows kept' (m, t)
                      (sym (read_thumbnails-fresh Image files cache name h) ∙ e),
                )
                (ap (with_image Image id t) same, current, bounded))
      ]

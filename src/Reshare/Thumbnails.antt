-- ===== src/Reshare/Thumbnails.antt =====
-- _read_thumbnails() and _post_images() of app/instadroid/reshare.py. What the file system and Pillow
-- say of a file is a record; the thumbnails of an image are of any type.
use instadroid.Prelude.{
  ℕ, Option, none, some, List, [], ◌∷◌, ltb, ◌==◌, if◌then◌else◌, Text, text_eq, length,
}

module _ (Image : Type 0) where
  -- a file's mtime, and the thumbnails of its image, `some none` for one that is too featureless; none
  -- stands for an OSError
  pub record StoredFiles : Type 0 where
    pub mtime : Text → Option ℕ
    pub decode : Text → Option (Option Image)

  -- _Thumbnails
  abbrev pub Thumbnails : Type 0
  Thumbnails = ℕ × Option Image

  -- _thumbnails.get(name)
  unfoldable pub get : Text → List (Text × Thumbnails) → Option Thumbnails
  get name [] = none
  get name ((n, t) ∷ cache) = if text_eq n name then some t else get name cache

  -- kept[name] = read
  unfoldable pub put : Text → Thumbnails → List (Text × Thumbnails) → List (Text × Thumbnails)
  put name read [] = (name, read) ∷ []
  put name read ((n, t) ∷ cache) =
      if text_eq n name then (name, read) ∷ cache else (n, t) ∷ put name read cache

  unfoldable pub decoded : StoredFiles → Text → ℕ → Option Thumbnails
  decoded files name now = elim (files.decode name) [ none ↦ none | some t ↦ some (now, t) ]

  -- the cached thumbnails, if the file is still the one that they were taken of
  unfoldable pub cached_or : StoredFiles → Text → ℕ → Option Thumbnails → Option Thumbnails
  cached_or files name now none = decoded files name now
  cached_or files name now (some (mtime, t)) =
      if mtime == now then some (mtime, t) else decoded files name now

  -- _read_thumbnails(); none is the OSError
  unfoldable pub read_thumbnails : StoredFiles → List (Text × Thumbnails) → Text → Option Thumbnails
  read_thumbnails files cache name = elim (files.mtime name) [
    | none ↦ none
    | some now ↦ cached_or files name now (get name cache)
  ]

  unfoldable pub with_image : Text → Option Image → List (Text × Image) → List (Text × Image)
  with_image id none posts = posts
  with_image id (some image) posts = (id, image) ∷ posts

  unfoldable pub keep_read :
      ℕ → Text → Thumbnails → List (Text × Thumbnails) → List (Text × Thumbnails)
  keep_read cache_max name read kept =
      if ltb (length kept) cache_max then put name read kept else kept

  -- the loop of _post_images(), over rows of a post's id and a file name: the images, and the cache of
  -- the next pass
  unfoldable pub post_images :
      StoredFiles
      → ℕ
      → List (Text × Thumbnails)
      → List (Text × Text)
      → List (Text × Thumbnails)
      → List (Text × Image) × List (Text × Thumbnails)
  post_images files cache_max cache [] kept = ([], kept)
  post_images files cache_max cache ((id, name) ∷ rows) kept =
      elim (read_thumbnails files cache name) [
        | none ↦ post_images files cache_max cache rows kept
        | some read ↦
            (let rest =
                post_images files cache_max cache rows (keep_read cache_max name read kept) in
              (with_image id read.1 rest.0, rest.1))
      ]

-- ===== src/Stories/Files.antt =====
-- The files that _store_story() of app/instadroid/stories.py leaves on disk.
use instadroid.Prelude.{
  ℕ, ◌≡◌, ◌≢◌, refl, sym, ap, ◌∙◌, inl, inr, Bool, true, false, ◌||◌, some, List, [], ◌∷◌, arith,
  Text, text_eq, text_eq_iff, text_eq_refl, text_ne, contains, any, keep, All, Bool-cases,
}
use instadroid.Retention.Pruning.{Story}
use instadroid.Stories.Hash.{dhash}
use instadroid.Stories.Storing.{
  CapturedStory, Shelf, find_story_duplicate, unlink, rename_path, story_file, new_story,
  store_story,
}

-- every stored story has its file
abbrev pub HaveFiles : List Text → List Story → Type 0
HaveFiles files = All (λ x. (f : Text) → x.media_file ≡ some f → contains f files ≡ true)

contains-keep :
    (p : Text → Bool) (f : Text) (files : List Text)
    → contains f files ≡ true
    → p f ≡ true
    → contains f (keep p files) ≡ true
unfolding contains keep
contains-keep p f [] h k = h
contains-keep p f (x ∷ files) h k = elim (Bool-cases (text_eq x f)) [
  | inl e ↦ (let same : x ≡ f = (text_eq_iff x f).0 e in rw (same, k, text_eq_refl f) refl)
  | inr e ↦ ground (arith, contains-keep p f files)
]

keep-no :
    (p : Text → Bool) (f : Text) (files : List Text)
    → p f ≡ false
    → contains f (keep p files) ≡ false
unfolding contains keep
keep-no p f [] h = refl
keep-no p f (x ∷ files) h = elim (Bool-cases (text_eq x f)) [
  | inl e ↦ (let same : x ≡ f = (text_eq_iff x f).0 e in rw (same, h) (keep-no p f files h))
  | inr e ↦ ground (arith, keep-no p f files)
]

module _ (old new : Text) (files : List Text) where
  unlink-others :
      (f : Text) → f ≢ old → contains f files ≡ true → contains f (unlink old files) ≡ true
  unfolding unlink
  unlink-others f h k = contains-keep _ f files k (rw (text_ne f old h) refl)

  unlink-gone : contains old (unlink old files) ≡ false
  unfolding unlink
  unlink-gone = keep-no _ old files (rw (text_eq_refl old) refl)

  rename_path-others :
      (f : Text) → f ≢ old → contains f files ≡ true → contains f (rename_path old new files) ≡ true
  unfolding rename_path contains
  rename_path-others f h k = elim (Bool-cases (text_eq new f)) [
    | inl e ↦ rw e refl
    | inr e ↦ rw e (
        contains-keep _ f files k
          (rw (text_ne f old h, text_ne f new (λ q. ground (arith, text_eq_iff new f))) refl))
  ]

  rename_path-gone : old ≢ new → contains old (rename_path old new files) ≡ false
  unfolding rename_path contains
  rename_path-gone h =
      rw (text_ne new old (λ q. h (sym q))) (keep-no _ old files (rw (text_eq_refl old) refl))

HaveFiles-mono :
    (old : Text) (files files' : List Text) (stories : List Story)
    → ((f : Text) → f ≢ old → contains f files ≡ true → contains f files' ≡ true)
    → HaveFiles files stories
    → All (λ x. x.media_file ≢ some old) stories
    → HaveFiles files' stories
HaveFiles-mono old files files' [] keeps h own = tt
HaveFiles-mono old files files' (s ∷ stories) keeps (h, hs) (o, own) = (
  λ f e. keeps f (λ q. o (e ∙ ap some q)) (h f e),
  HaveFiles-mono old files files' stories keeps hs own,
)

new_story-file :
    (now : ℕ) (c : CapturedStory) (files : List Text) (f : Text)
    → (new_story now c).media_file ≡ some f
    → contains f (rename_path c.path (story_file c) files) ≡ true
unfolding new_story rename_path contains
new_story-file now c files f e = let same : story_file c ≡ f = cc in rw (same, text_eq_refl f) refl

-- Every stored story still has its file after a frame was filed or discarded, and the frame's
-- temporary file is gone, provided that no story and not the new one is kept under that name.
store_story-HaveFiles :
    (now : ℕ) (c : CapturedStory) (s : Shelf)
    → HaveFiles s.files s.stories
    → All (λ x. x.media_file ≢ some c.path) s.stories
    → c.path ≢ story_file c
    → HaveFiles (store_story now c s).0.files (store_story now c s).0.stories
      × (contains c.path (store_story now c s).0.files ≡ false)
unfolding store_story
store_story-HaveFiles now c s h own apart =
    elim (Bool-cases
      (c.is_blank || find_story_duplicate s.stories now c.username (dhash c.pixels))) [
        | inl e ↦ rw e (kept, unlink-gone c.path c.path s.files)
        | inr e ↦ elim (Bool-cases (any (λ x. text_eq x.id c.digest) s.stories)) [
          | inl k ↦ rw (e, k) (kept, unlink-gone c.path c.path s.files)
          | inr k ↦
              rw (e, k)
                (
                  (new_story-file now c s.files, moved),
                  rename_path-gone c.path (story_file c) s.files apart,
                )
        ]
      ]
  where
    kept : HaveFiles (unlink c.path s.files) s.stories
    kept = HaveFiles-mono c.path s.files _ s.stories (unlink-others c.path c.path s.files) h own

    moved : HaveFiles (rename_path c.path (story_file c) s.files) s.stories
    moved =
        HaveFiles-mono c.path s.files _ s.stories (rename_path-others c.path (story_file c) s.files)
          h own

-- ===== src/Report/Archive/Listing.antt =====
-- The order of `list_runs` and of `scan_workspace_files`.
use mathlib.Core.List.{Perm}
use subdollar_llm_coding_ben.Base.{
  Option-cases, inl, inr, Option-cases, ◌<◌, some, ℕ, none, All, ◌≡◌, ◌≢◌, refl, Option, List, [],
  ◌∷◌, arith,
}
use subdollar_llm_coding_ben.Text.{Text}
use subdollar_llm_coding_ben.Stage.{Result}
use subdollar_llm_coding_ben.Order.{sort_by, Ordering, reverse_order}
use subdollar_llm_coding_ben.Order.Laws.{IsOrder, IsOrder-key, IsOrder-flip}
use subdollar_llm_coding_ben.Order.Sort.{IsSortedBy, sort_by-perm, sort_by-IsSortedBy}
use subdollar_llm_coding_ben.Float.{F64}
use subdollar_llm_coding_ben.Report.Archive.{
  Disk, SavedManifest, cmp_text, found_manifests, list_runs,
}

cmp_text_reversed : (s t : Text) → cmp_text t s ≡ reverse_order (cmp_text s t)
unfolding cmp_text
cmp_text_reversed [] [] = refl
cmp_text_reversed [] (y ∷ t) = refl
cmp_text_reversed (x ∷ s) [] = refl
cmp_text_reversed (x ∷ s) (y ∷ t) = ground (arith, cmp_text_reversed s t)

cmp_text_passes :
    (s t u : Text)
    → cmp_text s t ≢ Ordering.gt
    → cmp_text t u ≢ Ordering.gt
    → cmp_text s u ≢ Ordering.gt
unfolding cmp_text
cmp_text_passes [] t [] h k = λ e. cc
cmp_text_passes [] t (z ∷ u) h k = λ e. cc
cmp_text_passes (x ∷ s) [] u h k = absurd (h refl)
cmp_text_passes (x ∷ s) (y ∷ t) [] h k = absurd (k refl)
cmp_text_passes (x ∷ s) (y ∷ t) (z ∷ u) h k = ground (arith, cmp_text_passes s t u)

pub cmp_text-IsOrder : IsOrder cmp_text
cmp_text-IsOrder = record { reversed = cmp_text_reversed; passes = cmp_text_passes }

-- The order of texts by their bytes.
pub data IsBefore : Text → Text → Type 0 where
  is_start : {y : ℕ} {t : Text} → IsBefore [] (y ∷ t)
  is_less : {x y : ℕ} {s t : Text} → x < y → IsBefore (x ∷ s) (y ∷ t)
  is_same : {x : ℕ} {s t : Text} → IsBefore s t → IsBefore (x ∷ s) (x ∷ t)

IsBefore-cmp_text : {s t : Text} → IsBefore s t → cmp_text t s ≡ Ordering.gt
unfolding cmp_text
IsBefore-cmp_text is_start = refl
IsBefore-cmp_text (is_less h) = ground arith
IsBefore-cmp_text (is_same h) = ground (arith, IsBefore-cmp_text h)

module _ (d : Disk) (f : F64) (Env : Type 0) (commit_of : Env → Text)
    (to_json : SavedManifest d f Env commit_of → Result Text) (env_to_json : Env → Result Text)
    (from_json : Text → Option (SavedManifest d f Env commit_of)) where
  abbrev M : Type 0
  M = SavedManifest d f Env commit_of

  -- The manifests of the directories: of each that has one which can be read and parsed.
  pub data Reads : List (Option Text) → List M → Type 0 where
    no_dir : Reads [] []
    is_missing :
        {files : List (Option Text)} {ms : List M} → Reads files ms → Reads (none ∷ files) ms
    is_malformed :
        {content : Text} {files : List (Option Text)} {ms : List M}
        → from_json content ≡ none
        → Reads files ms
        → Reads (some content ∷ files) ms
    is_manifest :
        {content : Text} {files : List (Option Text)} {m : M} {ms : List M}
        → from_json content ≡ some m
        → Reads files ms
        → Reads (some content ∷ files) (m ∷ ms)

  found_manifests-Reads :
      (files : List (Option Text))
      → Reads files (found_manifests d f Env commit_of to_json env_to_json from_json files)
  unfolding found_manifests
  found_manifests-Reads [] = no_dir
  found_manifests-Reads (none ∷ files) = is_missing (found_manifests-Reads files)
  found_manifests-Reads (some content ∷ files) = elim (Option-cases (from_json content)) [
    | inl e ↦ rw (e, found_manifests) (is_malformed e (found_manifests-Reads files))
    | inr (m, e) ↦ rw (e, found_manifests) (is_manifest e (found_manifests-Reads files))
  ]

  -- None stands behind one that started earlier.
  abbrev pub AreNewestFirst : List M → Type 0
  AreNewestFirst [] = Unit
  AreNewestFirst (a ∷ ms) =
      All (λ b. ¬ IsBefore a.manifest.started_at b.manifest.started_at) ms × AreNewestFirst ms

  abbrev newer : M → M → Ordering
  newer a b = cmp_text b.manifest.started_at a.manifest.started_at

  newest_first : (ms : List M) → IsSortedBy newer ms → AreNewestFirst ms
  newest_first [] _ = tt
  newest_first (a ∷ ms) (h, hs) = (none_later ms h, newest_first ms hs)
    where
      none_later :
          (bs : List M)
          → All (λ b. newer a b ≢ Ordering.gt) bs
          → All (λ b. ¬ IsBefore a.manifest.started_at b.manifest.started_at) bs
      none_later [] _ = tt
      none_later (b ∷ bs) (k, ks) = (λ before. k (IsBefore-cmp_text before), none_later bs ks)

  -- list_runs returns the manifests of the directories, of each that has one which can be read and parsed,
  -- each as often, and none of them behind one whose time of start is before its own, by the bytes of
  -- the texts.
  pub list_runs-AreNewestFirst :
      (files : List (Option Text))
      → ((ms : List M) × Reads files ms
          × Perm (list_runs d f Env commit_of to_json env_to_json from_json files) ms)
        × AreNewestFirst (list_runs d f Env commit_of to_json env_to_json from_json files)
  unfolding list_runs
  list_runs-AreNewestFirst files =
      let found = found_manifests d f Env commit_of to_json env_to_json from_json files in
      (
        (found, found_manifests-Reads files, sort_by-perm newer found),
        newest_first (sort_by newer found) (
            sort_by-IsSortedBy newer
              (IsOrder-key (λ s t. cmp_text t s) (λ (m : M). m.manifest.started_at)
                (IsOrder-flip cmp_text cmp_text-IsOrder))
              found),
      )

-- ===== src/Compliance/Workspace/Reach.antt =====
-- Which files `scan_dir` inspects, and when `check_no_frameworks` accepts a workspace.
use mathlib.Core.List.{cons-ne-nil}
use subdollar_llm_coding_ben.Base.{
  ◌≡◌, ◌↔◌, refl, false, Option, List, [], ◌∷◌, ◌++◌, Bool-cases, inl, inr,
}
use subdollar_llm_coding_ben.Text.{Text}
use subdollar_llm_coding_ben.Stage.{err-ne-ok, ok}
use subdollar_llm_coding_ben.Compliance.Workspace.{
  Entry, file, dir, other, Entries, nil, cons, is_skipped, inspect_file, scan_entry, scan_dir,
  verdict, check_no_frameworks,
}

-- The file stands in the directory, or in one below it, and nothing on the way is skipped.
mutual
  pub data InEntry (name : Text) (content : Option Text) : Entry → Type 0 where
    here : is_skipped name ≡ false → InEntry name content (file name content)
    below :
        {d : Text} {es : Entries}
        → is_skipped d ≡ false
        → InDir name content es
        → InEntry name content (dir d es)

  pub data InDir (name : Text) (content : Option Text) : Entries → Type 0 where
    first : {e : Entry} {es : Entries} → InEntry name content e → InDir name content (cons e es)
    later : {e : Entry} {es : Entries} → InDir name content es → InDir name content (cons e es)

append-eq-nil : (xs ys : List Text) → xs ++ ys ≡ [] → (xs ≡ []) × (ys ≡ [])
append-eq-nil [] ys h = (refl, h)
append-eq-nil (x ∷ xs) ys h = absurd (cons-ne-nil _ _ h)

module _ (lower : Text → Text) (json_strings : Text → Option (List Text)) where
  abbrev pub Clean : Text → Option Text → Type 0
  Clean name content = inspect_file lower json_strings name content ≡ []

  mutual
    unfolding scan_entry scan_dir

    scan_entry-Clean :
        (name : Text) (content : Option Text) (e : Entry)
        → InEntry name content e
        → scan_entry lower json_strings e ≡ []
        → Clean name content
    scan_entry-Clean name content _ (here kept) h = rw (kept) at h
    scan_entry-Clean name content _ (below {d} {es} kept inside) h =
        scan_dir-Clean name content es inside (rw (kept) at h)

    scan_dir-Clean :
        (name : Text) (content : Option Text) (es : Entries)
        → InDir name content es
        → scan_dir lower json_strings es ≡ []
        → Clean name content
    scan_dir-Clean name content _ (first {e} {es} inside) h =
        scan_entry-Clean name content e inside (append-eq-nil _ _ h).0
    scan_dir-Clean name content _ (later {e} {es} inside) h =
        scan_dir-Clean name content es inside (append-eq-nil _ _ h).1

  mutual
    unfolding scan_entry scan_dir

    Clean-scan_entry :
        (e : Entry)
        → ((name : Text) (content : Option Text) → InEntry name content e → Clean name content)
        → scan_entry lower json_strings e ≡ []
    Clean-scan_entry (file name content) h = elim (Bool-cases (is_skipped name)) [
      | inl e ↦ rw (e) refl
      | inr e ↦ rw (e) (h name content (here e))
    ]
    Clean-scan_entry (dir d es) h = elim (Bool-cases (is_skipped d)) [
      | inl e ↦ rw (e) refl
      | inr e ↦ rw (e) (Clean-scan_dir es (λ name content inside. h name content (below e inside)))
    ]
    Clean-scan_entry (other name) h = refl

    Clean-scan_dir :
        (es : Entries)
        → ((name : Text) (content : Option Text) → InDir name content es → Clean name content)
        → scan_dir lower json_strings es ≡ []
    Clean-scan_dir nil h = refl
    Clean-scan_dir (cons e es) h =
        rw
          (
            Clean-scan_entry e (λ name content inside. h name content (first inside)),
            Clean-scan_dir es (λ name content inside. h name content (later inside)),
          )
          refl

  verdict-eq-ok : (vs : List Text) → verdict lower json_strings vs ≡ ok tt → vs ≡ []
  unfolding verdict
  verdict-eq-ok [] h = refl
  verdict-eq-ok (v ∷ vs) h = absurd (err-ne-ok h)

  -- check_no_frameworks accepts a workspace exactly if inspect_file finds nothing in any file that
  -- stands in it with nothing on the way that is skipped.
  pub check_no_frameworks_iff :
      (workdir : Entries)
      → (check_no_frameworks lower json_strings workdir ≡ ok tt)
        ↔ ((name : Text) (content : Option Text) → InDir name content workdir → Clean name content)
  unfolding check_no_frameworks verdict
  check_no_frameworks_iff workdir = (
    λ h name content inside.
        scan_dir-Clean name content workdir inside
          (verdict-eq-ok (scan_dir lower json_strings workdir) h),
    λ h. rw (Clean-scan_dir workdir h) refl,
  )

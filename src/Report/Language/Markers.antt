-- ===== src/Report/Language/Markers.antt =====
-- `detect_language` depends only on which files there are.
use subdollar_llm_coding_ben.Base.{
  subst, ◌≡◌, ◌≢◌, ◌↔◌, ◌⊎◌, inl, inr, refl, sym, ◌∙◌, Bool, true, false, Option, Bool-cases, arith,
}
use subdollar_llm_coding_ben.Text.{Text}
use subdollar_llm_coding_ben.Compliance.Workspace.{Entry, file, dir, other, Entries, nil, cons}
use subdollar_llm_coding_ben.Report.Language.{
  Marker, rust, go, c_family, python, node, plain, marker_of, Found, nothing, mark, is_scanned,
  scan_extension, scan_extensions, language_of, detect_language,
}

-- A file with this name stands in the directory, or in one below it that is scanned.
mutual
  pub data InEntry (name : Text) : Entry → Type 0 where
    here : {content : Option Text} → InEntry name (file name content)
    below :
        {d : Text} {es : Entries} → is_scanned d ≡ true → HasFile name es → InEntry name (dir d es)

  pub data HasFile (name : Text) : Entries → Type 0 where
    first : {e : Entry} {es : Entries} → InEntry name e → HasFile name (cons e es)
    later : {e : Entry} {es : Entries} → HasFile name es → HasFile name (cons e es)

abbrev flag : Marker → Found → Bool
flag rust f = f.has_rust
flag go f = f.has_go
flag c_family f = f.has_c
flag python f = f.has_py
flag node f = f.has_js
flag plain f = false

mark_keeps : (m k : Marker) (f : Found) → flag m f ≡ true → flag m (mark k f) ≡ true
mark_keeps m k f h = ground arith

mark_sets : (m : Marker) (f : Found) → m ≢ plain → flag m (mark m f) ≡ true
mark_sets m f h = ground arith

mark_only : (m k : Marker) (f : Found) → flag m (mark k f) ≡ true → (flag m f ≡ true) ⊎ (k ≡ m)
mark_only m k f h = ground arith

mutual
  unfolding scan_extension scan_extensions

  entry_keeps :
      (m : Marker) (e : Entry) (f : Found) → flag m f ≡ true → flag m (scan_extension e f) ≡ true
  entry_keeps m (file name content) f h = mark_keeps m (marker_of name) f h
  entry_keeps m (dir d es) f h = elim (Bool-cases (is_scanned d)) [
    | inl e ↦ rw (e) (dir_keeps m es f h)
    | inr e ↦ rw (e) h
  ]
  entry_keeps m (other name) f h = h

  dir_keeps :
      (m : Marker) (es : Entries) (f : Found)
      → flag m f ≡ true
      → flag m (scan_extensions es f) ≡ true
  dir_keeps m nil f h = h
  dir_keeps m (cons e es) f h = dir_keeps m es (scan_extension e f) (entry_keeps m e f h)

mutual
  unfolding scan_extension scan_extensions

  entry_finds :
      (name : Text) (e : Entry) (f : Found)
      → InEntry name e
      → marker_of name ≢ plain
      → flag (marker_of name) (scan_extension e f) ≡ true
  entry_finds name _ f (here {content}) p = mark_sets (marker_of name) f p
  entry_finds name _ f (below {d} {es} scanned inside) p =
      rw (scanned) (dir_finds name es f inside p)

  dir_finds :
      (name : Text) (es : Entries) (f : Found)
      → HasFile name es
      → marker_of name ≢ plain
      → flag (marker_of name) (scan_extensions es f) ≡ true
  dir_finds name _ f (first {e} {es} inside) p =
      dir_keeps (marker_of name) es (scan_extension e f) (entry_finds name e f inside p)
  dir_finds name _ f (later {e} {es} inside) p = dir_finds name es (scan_extension e f) inside p

-- A file that sets the flag.
abbrev Sets : Marker → Entries → Type 0
Sets m es = (name : Text) × (HasFile name es × (marker_of name ≡ m))

abbrev SetsEntry : Marker → Entry → Type 0
SetsEntry m e = (name : Text) × (InEntry name e × (marker_of name ≡ m))

mutual
  unfolding scan_extension scan_extensions

  entry_only :
      (m : Marker) (e : Entry) (f : Found)
      → flag m (scan_extension e f) ≡ true
      → (flag m f ≡ true) ⊎ SetsEntry m e
  entry_only m (file name content) f h = elim (mark_only m (marker_of name) f h) [
    | inl e ↦ inl e
    | inr e ↦ inr (name, (here, e))
  ]
  entry_only m (dir d es) f h = elim (Bool-cases (is_scanned d)) [
    | inl e ↦ elim (dir_only m es f (rw (e) at h)) [
      | inl k ↦ inl k
      | inr (name, (inside, k)) ↦ inr (name, (below e inside, k))
    ]
    | inr e ↦ inl (rw (e) at h)
  ]
  entry_only m (other name) f h = inl h

  dir_only :
      (m : Marker) (es : Entries) (f : Found)
      → flag m (scan_extensions es f) ≡ true
      → (flag m f ≡ true) ⊎ Sets m es
  dir_only m nil f h = inl h
  dir_only m (cons e es) f h = elim (dir_only m es (scan_extension e f) h) [
    | inr (name, (inside, k)) ↦ inr (name, (later inside, k))
    | inl set ↦ elim (entry_only m e f set) [
      | inl k ↦ inl k
      | inr (name, (inside, k)) ↦ inr (name, (first inside, k))
    ]
  ]

-- Two trees hold files of the same names.
abbrev pub HaveSameFiles : Entries → Entries → Type 0
HaveSameFiles es es' = (name : Text) → HasFile name es ↔ HasFile name es'

flag_passes :
    (m : Marker) (es es' : Entries)
    → m ≢ plain
    → HaveSameFiles es es'
    → flag m (scan_extensions es nothing) ≡ true
    → flag m (scan_extensions es' nothing) ≡ true
flag_passes m es es' proper same h = elim (dir_only m es nothing h) [
  | inl k ↦ absurd (unset m k)
  | inr (name, (inside, k)) ↦
      subst (λ x. flag x (scan_extensions es' nothing) ≡ true) k
        (dir_finds name es' nothing ((same name).0 inside) (λ e. proper (sym k ∙ e)))
]
  where
    unset : (k : Marker) → flag k nothing ≡ true → ⊥
    unset k h = ground arith

Bool_ext : (p q : Bool) → (p ≡ true → q ≡ true) → (q ≡ true → p ≡ true) → p ≡ q
Bool_ext p q h k = ground arith

flag_same :
    (m : Marker) (es es' : Entries)
    → m ≢ plain
    → HaveSameFiles es es'
    → flag m (scan_extensions es nothing) ≡ flag m (scan_extensions es' nothing)
flag_same m es es' proper same =
    Bool_ext _ _ (flag_passes m es es' proper same)
      (flag_passes m es' es proper (λ name. ((same name).1, (same name).0)))

language_ext :
    (f g : Found) → ((m : Marker) → m ≢ plain → flag m f ≡ flag m g) → language_of f ≡ language_of g
unfolding language_of
language_ext f g h =
    rw
      (h rust (λ e. cc), h go (λ e. cc), h c_family (λ e. cc), h node (λ e. cc), h python (λ e. cc))
      refl

-- The language that detect_language names depends only on the names of the files that stand in the
-- workspace outside hidden directories, target and node_modules: not on the order in which a directory
-- is read, nor on how often a file is met, nor on contents.
pub detect_language-HaveSameFiles :
    (es es' : Entries) → HaveSameFiles es es' → detect_language es ≡ detect_language es'
unfolding detect_language
detect_language-HaveSameFiles es es' same =
    language_ext (scan_extensions es nothing) (scan_extensions es' nothing)
      (λ m proper. flag_same m es es' proper same)

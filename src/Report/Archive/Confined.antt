-- ===== src/Report/Archive/Confined.antt =====
-- Which file `get_workspace_file` reads.
use mathlib.Core.Option.{some-ne-none}
use subdollar_llm_coding_ben.Base.{
  ◌≡◌, refl, sym, ap, ◌∙◌, subst, ◌||◌, Option, none, some, List, [], ◌∷◌, ◌++◌, append_assoc,
  Bool-cases, inl, inr, if◌then◌else◌,
}
use subdollar_llm_coding_ben.Text.{Text, codes, contains, starts_with}
use subdollar_llm_coding_ben.Report.Paths.{file_name, components, resolve}
use subdollar_llm_coding_ben.Report.Paths.Inside.{components-IsName, resolve-IsName}
use subdollar_llm_coding_ben.Report.Paths.Names.{resolve-file_name}
use subdollar_llm_coding_ben.Report.Archive.{Disk, get_workspace_file}

module _ (d : Disk) where
  open d use {State, read_to_string}

  -- The content is that of a file below the run's workspace.
  abbrev pub IsBelow : List Text → Text → State → Text → Type 0
  IsBelow runs clean_id s content =
      (names : List Text) × (read_to_string (runs ++ (clean_id ∷ codes "workspace" ∷ names)) s
        ≡ some content)

  below :
      (runs : List Text) (run_id filename clean_id : Text) (s : State) (content : Text)
      → file_name run_id ≡ some clean_id
      → (if contains filename (codes "..") || starts_with filename (codes "/")
          then none
          else read_to_string
              (resolve
                (resolve runs (components clean_id) ++ codes "workspace" ∷ [])
                (components filename))
              s)
        ≡ some content
      → IsBelow runs clean_id s content
  below runs run_id filename clean_id s content named h =
      elim (Bool-cases (contains filename (codes ".."))) [
        | inl e ↦ absurd (
            some-ne-none content (
              sym (
                subst
                  (λ b.
                    (if b || starts_with filename (codes "/") then none else found) ≡ some content)
                  e h)))
        | inr e ↦ elim (Bool-cases (starts_with filename (codes "/"))) [
          | inl k ↦ absurd (
              some-ne-none content (
                sym (
                  subst (λ b. (if b then none else found) ≡ some content) k
                    (subst
                      (λ b.
                        (if b || starts_with filename (codes "/") then none else found)
                        ≡ some content)
                      e h))))
          | inr k ↦
              let (names, led) =
                resolve-IsName (resolve runs (components clean_id) ++ codes "workspace" ∷ [])
                  (components filename) (components-IsName filename e k) in
              let read =
                subst (λ b. (if b then none else found) ≡ some content) k
                  (subst
                    (λ b.
                      (if b || starts_with filename (codes "/") then none else found)
                      ≡ some content)
                    e h) in
              (
                names,
                ap (λ p. read_to_string p s)
                      (sym (
                        led
                        ∙ ap (λ p. (p ++ codes "workspace" ∷ []) ++ names)
                            (resolve-file_name runs run_id clean_id named)
                        ∙ flat names))
                    ∙ read,
              )
        ]
      ]
    where
      found : Option Text
      found =
          read_to_string
            (resolve (resolve runs (components clean_id) ++ codes "workspace" ∷ [])
              (components filename))
            s

      flat :
          (names : List Text)
          → ((runs ++ clean_id ∷ []) ++ codes "workspace" ∷ []) ++ names
            ≡ runs ++ (clean_id ∷ codes "workspace" ∷ names)
      flat names =
          append_assoc (runs ++ clean_id ∷ []) (codes "workspace" ∷ []) names
          ∙ append_assoc runs (clean_id ∷ []) (codes "workspace" ∷ names)

  -- Where the disk has no links: whatever run id and file name are asked for, what get_workspace_file
  -- returns is the content of a file below the directory `workspace` of the run that the last part
  -- of the id names.
  pub get_workspace_file-IsBelow :
      (runs : List Text) (run_id filename : Text) (s : State) (content : Text)
      → get_workspace_file d runs run_id filename s ≡ some content
      → (clean_id : Text) × (file_name run_id ≡ some clean_id) × IsBelow runs clean_id s content
  unfolding get_workspace_file
  get_workspace_file-IsBelow runs run_id filename s content h = by_name (file_name run_id) refl h
    where
      by_name :
          (o : Option Text)
          → file_name run_id ≡ o
          → (elim o [
            | none ↦ none
            | some clean_id ↦
                if contains filename (codes "..") || starts_with filename (codes "/")
                then none
                else read_to_string
                    (resolve
                      (resolve runs (components clean_id) ++ codes "workspace" ∷ [])
                      (components filename))
                    s
          ])
            ≡ some content
          → (clean_id : Text) × (file_name run_id ≡ some clean_id) × IsBelow runs clean_id s content
      by_name none e k = absurd (some-ne-none content (sym k))
      by_name (some clean_id) e k = (clean_id, e, below runs run_id filename clean_id s content e k)

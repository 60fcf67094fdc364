-- ===== src/Report/Archive/Saved.antt =====
-- What `archive_run` has written, `get_run` and `get_console_log` read.
use subdollar_llm_coding_ben.Base.{
  ◌≡◌, ◌≢◌, refl, sym, ap, ◌∙◌, Bool-cases, inl, inr, Option, none, some, List, [], ◌∷◌, ◌++◌,
  append_assoc,
}
use subdollar_llm_coding_ben.Text.{Text, codes}
use subdollar_llm_coding_ben.Stage.{Result, ok, err, Step, ◌>>◌, bind_result}
use subdollar_llm_coding_ben.Stage.Returns.{Ends, Ends-bind, Ends-weaken, Ends-ok}
use subdollar_llm_coding_ben.Float.{F64}
use subdollar_llm_coding_ben.Report.Paths.{file_name}
use subdollar_llm_coding_ben.Report.Archive.{
  Node, file, dir, link_to_file, link_to_dir, dead_link, Nodes, nil, cons, is_left_out, Disk,
  copy_file, copy_entry, copy_dir_recursive, join, SavedManifest, with_env, write_json, write_env,
  unwrap_or_id, snapshot, fill_rest, fill_run_dir, archive_run, get_run, get_console_log,
}

-- Two ways out of one directory are apart.
apart : (at : List Text) (a b : Text) (xs ys : List Text) → a ≢ b → at ++ a ∷ xs ≢ at ++ b ∷ ys
apart [] a b xs ys no_same h = let e : a ≡ b = cc in no_same e
apart (p ∷ at) a b xs ys no_same h =
    let e : at ++ a ∷ xs ≡ at ++ b ∷ ys = cc in apart at a b xs ys no_same e

-- What is written is read, and nothing else changes.
pub record IsFaithful (d : Disk) : Type 0 where
  pub written :
      (p : List Text) (t : Text) (s : d.State)
      → (d.write p t s).0 ≡ ok tt
      → d.read_to_string p (d.write p t s).1 ≡ some t
  pub write_keeps :
      (p q : List Text) (t : Text) (s : d.State)
      → q ≢ p
      → d.read_to_string q (d.write p t s).1 ≡ d.read_to_string q s
  pub create_keeps :
      (p q : List Text) (s : d.State)
      → d.read_to_string q (d.create_dir_all p s).1 ≡ d.read_to_string q s

module _ (d : Disk) (law : IsFaithful d) where
  open d use {State, create_dir_all, write, read_to_string}

  abbrev Loose : Text → State → Type 0
  Loose e s = Unit

  abbrev AnyValue : {A : Type 0} → A → State → Type 0
  AnyValue a s = Unit

  loose : {A : Type 0} (r : Result A × State) → Ends AnyValue Loose r
  loose (ok a, s) = tt
  loose (err e, s) = tt

  Ends-with_state :
      {A : Type 0} (P : State → Type 0) (r : Result A × State) → P r.1 → Ends (λ a s. P s) Loose r
  Ends-with_state P (ok a, s) h = h
  Ends-with_state P (err e, s) h = tt

  write-Ends :
      (p : List Text) (t : Text) (s : State)
      → Ends (λ u s1. read_to_string p s1 ≡ some t) Loose (write p t s)
  write-Ends p t s = outcome (write p t s) (law.written p t s)
    where
      outcome :
          (r : Result (Unit {0}) × State)
          → (r.0 ≡ ok tt → read_to_string p r.1 ≡ some t)
          → Ends (λ u s1. read_to_string p s1 ≡ some t) Loose r
      outcome (ok u, s1) h = h refl
      outcome (err e, s1) h = tt

  -- The file at `q` holds `t` throughout.
  module _ (q : List Text) (t : Text) where
    abbrev Holds : State → Type 0
    Holds s = read_to_string q s ≡ some t

    abbrev AndHolds : {A : Type 0} → A → State → Type 0
    AndHolds a s = Holds s

    write-Holds : (p : List Text) (c : Text) (s : State) → q ≢ p → Holds s → Holds (write p c s).1
    write-Holds p c s no_same h = law.write_keeps p q c s no_same ∙ h

    create-Ends : (p : List Text) (s : State) → Holds s → Ends AndHolds Loose (create_dir_all p s)
    create-Ends p s h = Ends-with_state Holds (create_dir_all p s) (law.create_keeps p q s ∙ h)

    abbrev IsOutside : List Text → Type 0
    IsOutside dst = (names : List Text) → q ≢ dst ++ names

    IsOutside-child : (dst : List Text) (name : Text) → IsOutside dst → IsOutside (dst ++ name ∷ [])
    IsOutside-child dst name out names e =
        out (name ∷ names) (e ∙ append_assoc dst (name ∷ []) names)

    mutual
      unfolding copy_entry copy_dir_recursive copy_file

      copy_entry-Ends :
          (dst : List Text) (e : Node) (s : State)
          → IsOutside dst
          → Holds s
          → Ends AndHolds Loose (copy_entry d dst e s)
      copy_entry-Ends dst (file name size none) s out h = h
      copy_entry-Ends dst (file name size (some content)) s out h =
          write-Holds (dst ++ name ∷ []) content s (out (name ∷ [])) h
      copy_entry-Ends dst (dir name es) s out h = elim (Bool-cases (is_left_out name)) [
        | inl e ↦ rw (e) h
        | inr e ↦ rw (e) (
            Ends-bind _ AndHolds AndHolds Loose (create_dir_all (dst ++ name ∷ []) s)
              (create-Ends (dst ++ name ∷ []) s h)
              (λ u s1 h1.
                copy_dir_recursive-Ends (dst ++ name ∷ []) es s1 (IsOutside-child dst name out) h1))
      ]
      copy_entry-Ends dst (link_to_file name size) s out h = h
      copy_entry-Ends dst (link_to_dir name es) s out h = h
      copy_entry-Ends dst (dead_link name) s out h = h

      copy_dir_recursive-Ends :
          (dst : List Text) (es : Nodes) (s : State)
          → IsOutside dst
          → Holds s
          → Ends AndHolds Loose (copy_dir_recursive d dst es s)
      copy_dir_recursive-Ends dst nil s out h = h
      copy_dir_recursive-Ends dst (cons e es) s out h =
          Ends-bind _ AndHolds AndHolds Loose (copy_entry d dst e s) (copy_entry-Ends dst e s out h)
            (λ u s1 h1. copy_dir_recursive-Ends dst es s1 out h1)

    snapshot-Ends :
        (dst : List Text) (workspace : Option Nodes) (s : State)
        → IsOutside dst
        → Holds s
        → Ends AndHolds Loose (snapshot d dst workspace s)
    unfolding snapshot
    snapshot-Ends dst none s out h = h
    snapshot-Ends dst (some workspace) s out h = copy_dir_recursive-Ends dst workspace s out h

  module _ (f : F64) (Env : Type 0) (commit_of : Env → Text)
      (to_json : SavedManifest d f Env commit_of → Result Text) (env_to_json : Env → Result Text)
      (from_json : Text → Option (SavedManifest d f Env commit_of)) where
    abbrev M : Type 0
    M = SavedManifest d f Env commit_of

    write_env-Ends :
        (q : List Text) (t : Text) (path : List Text) (env : Option Env) (s : State)
        → q ≢ path
        → Holds q t s
        → Ends
            (AndHolds q t)
            Loose
            (write_env d f Env commit_of to_json env_to_json from_json path env s)
    unfolding write_env write_json
    write_env-Ends q t path none s no_same h = h
    write_env-Ends q t path (some env) s no_same h = by_json (env_to_json env)
      where
        by_json : (r : Result Text) → Holds q t (write_json d path r s).1
        by_json (ok json) = write-Holds q t path json s no_same h
        by_json (err e) = h

    -- A file of the run's directory that the rest does not write.
    fill_rest-Ends :
        (run_dir : List Text) (name : Text) (t : Text) (m : M) (workspace : Option Nodes)
        (s : State)
        → name ≢ codes "env.json"
        → name ≢ codes "workspace"
        → Holds (run_dir ++ name ∷ []) t s
        → Ends
            (AndHolds (run_dir ++ name ∷ []) t)
            Loose
            (fill_rest d f Env commit_of to_json env_to_json from_json run_dir m workspace s)
    unfolding fill_rest
    fill_rest-Ends run_dir name t m workspace s no_env no_workspace h =
        let q = run_dir ++ name ∷ [] in
        let dst = run_dir ++ codes "workspace" ∷ [] in
        Ends-bind _ (AndHolds q t) (AndHolds q t) Loose
          (write_env d f Env commit_of to_json env_to_json from_json
            (run_dir ++ codes "env.json" ∷ []) m.env s)
          (write_env-Ends q t (run_dir ++ codes "env.json" ∷ []) m.env s
            (apart run_dir name (codes "env.json") [] [] no_env) h)
          (λ a s1 h1.
            Ends-bind _ (AndHolds q t) (AndHolds q t) Loose (create_dir_all dst s1)
              (create-Ends q t dst s1 h1)
              (λ b s2 h2.
                Ends-bind _ (AndHolds q t) (AndHolds q t) Loose (snapshot d dst workspace s2)
                  (snapshot-Ends q t dst workspace s2
                    (λ names e.
                      apart run_dir name (codes "workspace") [] names no_workspace
                        (e ∙ append_assoc run_dir (codes "workspace" ∷ []) names))
                    h2)
                  (λ c s3 h3. h3)))

    -- The manifest is there.
    abbrev HasManifest : List Text → M → State → Type 0
    HasManifest run_dir m s =
        (json : Text) × (to_json m ≡ ok json)
        × (read_to_string (run_dir ++ codes "manifest.json" ∷ []) s ≡ some json)

    fill : List Text → M → Option Nodes → Text → Step State (List Text)
    fill = fill_run_dir d f Env commit_of to_json env_to_json from_json

    fill_manifest-Ends :
        (run_dir : List Text) (m : M) (workspace : Option Nodes) (console : Text) (s : State)
        → Ends (λ at s1. HasManifest run_dir m s1) Loose (fill run_dir m workspace console s)
    unfolding fill fill_run_dir write_json
    fill_manifest-Ends run_dir m workspace console s =
        Ends-bind _ AnyValue Has Loose (create_dir_all run_dir s) (loose (create_dir_all run_dir s))
          (λ u s1 v. by_json (to_json m) refl s1)
      where
        Has : List Text → State → Type 0
        Has at s1 = HasManifest run_dir m s1

        q : List Text
        q = run_dir ++ codes "manifest.json" ∷ []

        c : List Text
        c = run_dir ++ codes "console.log" ∷ []

        filled :
            (json : Text)
            → to_json m ≡ ok json
            → (s2 : State) → Holds q json s2
            → Ends Has Loose
                (fill_rest d f Env commit_of to_json env_to_json from_json run_dir m workspace s2)
        filled json e s2 h =
            Ends-weaken (AndHolds q json) Has Loose
              (fill_rest d f Env commit_of to_json env_to_json from_json run_dir m workspace s2)
              (λ at s3 h3. (json, e, h3))
              (fill_rest-Ends run_dir (codes "manifest.json") json m workspace s2 (λ k. cc)
                (λ k. cc) h)

        by_json :
            (r : Result Text)
            → to_json m ≡ r
            → (s1 : State)
            → Ends Has Loose (
                bind_result
                  (λ u.
                    write c console
                    >> fill_rest d f Env commit_of to_json env_to_json from_json run_dir m
                        workspace)
                  (write_json d q r s1))
        by_json (err why) e s1 = tt
        by_json (ok json) e s1 =
            Ends-bind _ (AndHolds q json) Has Loose (write q json s1) (write-Ends q json s1)
              (λ u s2 h2.
                Ends-bind _ (AndHolds q json) Has Loose (write c console s2)
                  (Ends-with_state (Holds q json) (write c console s2) (
                    write-Holds q json c console s2
                      (apart run_dir (codes "manifest.json") (codes "console.log") [] [] (λ k. cc))
                      h2))
                  (λ v s3 h3. filled json e s3 h3))

    fill_console-Ends :
        (run_dir : List Text) (m : M) (workspace : Option Nodes) (console : Text) (s : State)
        → Ends
            (AndHolds (run_dir ++ codes "console.log" ∷ []) console)
            Loose
            (fill run_dir m workspace console s)
    unfolding fill fill_run_dir
    fill_console-Ends run_dir m workspace console s =
        let q = run_dir ++ codes "console.log" ∷ [] in
        let manifest = run_dir ++ codes "manifest.json" ∷ [] in
        Ends-bind _ AnyValue (AndHolds q console) Loose (create_dir_all run_dir s)
          (loose (create_dir_all run_dir s))
          (λ u s1 v.
            Ends-bind _ AnyValue (AndHolds q console) Loose (write_json d manifest (to_json m) s1)
              (loose (write_json d manifest (to_json m) s1))
              (λ x s2 y.
                Ends-bind _ (AndHolds q console) (AndHolds q console) Loose (write q console s2)
                  (write-Ends q console s2)
                  (λ z s3 h.
                    fill_rest-Ends run_dir (codes "console.log") console m workspace s3 (λ k. cc)
                      (λ k. cc) h)))

    abbrev archive : Env → List Text → M → Option Nodes → Text → Step State (List Text)
    archive = archive_run d f Env commit_of to_json env_to_json from_json

    abbrev load : List Text → Text → State → Option M
    load = get_run d f Env commit_of to_json env_to_json from_json

    archive_run-fill :
        (detected : Env) (runs : List Text) (m : M) (workspace : Option Nodes) (console name : Text)
        (s : State)
        → file_name m.manifest.run_id ≡ some name
        → archive detected runs m workspace console s
          ≡ fill
              (join d runs name)
              (with_env d f Env commit_of to_json env_to_json from_json detected m)
              workspace
              console
              s
    unfolding archive_run fill
    archive_run-fill detected runs m workspace console name s named =
        ap
          (λ o.
            fill_run_dir d f Env commit_of to_json env_to_json from_json
              (join d runs
                (unwrap_or_id d f Env commit_of to_json env_to_json from_json o m.manifest.run_id))
              (with_env d f Env commit_of to_json env_to_json from_json detected m) workspace
              console s)
          named

    get_run-read :
        (runs : List Text) (run_id name json : Text) (m : M) (s : State)
        → file_name run_id ≡ some name
        → read_to_string (join d runs name ++ codes "manifest.json" ∷ []) s ≡ some json
        → from_json json ≡ some m
        → load runs run_id s ≡ some m
    unfolding get_run
    get_run-read runs run_id name json m s named h e = rw (named, get_run, h) e

    get_console_log-read :
        (runs : List Text) (run_id name : Text) (s : State)
        → file_name run_id ≡ some name
        → get_console_log d runs run_id s
          ≡ read_to_string (join d runs name ++ codes "console.log" ∷ []) s
    unfolding get_console_log
    get_console_log-read runs run_id name s named = rw (named, get_console_log) refl

    -- If the disk keeps what is written and from_json reads what to_json prints of this manifest, then after
    -- archive_run has succeeded for a run whose id ends in a name, get_run returns the manifest with the environment
    -- that archive_run put in, and get_console_log the console's text.
    pub get_run-archive_run :
        (detected : Env) (runs : List Text) (m : M) (workspace : Option Nodes) (console name : Text)
        (s : State) (run_dir : List Text)
        → ((json : Text)
            → to_json (with_env d f Env commit_of to_json env_to_json from_json detected m)
              ≡ ok json
            → from_json json
              ≡ some (with_env d f Env commit_of to_json env_to_json from_json detected m))
        → file_name m.manifest.run_id ≡ some name
        → (archive detected runs m workspace console s).0 ≡ ok run_dir
        → let s1 = (archive detected runs m workspace console s).1 in
          (load runs m.manifest.run_id s1
            ≡ some (with_env d f Env commit_of to_json env_to_json from_json detected m))
          × (get_console_log d runs m.manifest.run_id s1 ≡ some console)
    get_run-archive_run detected runs m workspace console name s run_dir parses named success =
        let at = join d runs name in
        let saved = with_env d f Env commit_of to_json env_to_json from_json detected m in
        let same = archive_run-fill detected runs m workspace console name s named in
        let done = sym (ap (λ r. r.0) same) ∙ success in
        let r = fill at saved workspace console s in
        let (json, printed, held) =
          Ends-ok (HasManifest at saved) Loose r run_dir
            (fill_manifest-Ends at saved workspace console s) done in
        let logged =
          Ends-ok (Holds (at ++ codes "console.log" ∷ []) console) Loose r run_dir
            (fill_console-Ends at saved workspace console s) done in
        let id = m.manifest.run_id in
        (
          ap (λ r1. load runs id r1.1) same
              ∙ get_run-read runs id name json saved r.1 named held (parses json printed),
          ap (λ r1. get_console_log d runs id r1.1) same
              ∙ (get_console_log-read runs id name r.1 named ∙ logged),
        )

-- ===== src/Daemon/Workspace/Paths.antt =====
-- Where a workspace stands, and what is removed.
use Prim.Native.Char.{Char, code}
use mathlib.Core.List.{append-nil}
use sinfonia.Base.{
  subst, ◌==◌, ◌≡◌, ◌≢◌, refl, String, Bool, true, false, ◌&&◌, ◌||◌, not, Option, none, some, [],
  ◌∷◌, ◌++◌, str_eq, is_empty_str, eq_refl, eq_iff, ◌⊎◌, if◌then◌else◌, arith, Bool-cases, inl, inr,
  is_some, ◌∙◌, ap,
}
use sinfonia.Domain.{is_safe_char, sanitize_workspace_key}
use sinfonia.Daemon.Workspace.{
  Component, parent_dir, normal, FilePath, starts_with, split_path, component_of, components,
  is_absolute, join_path, path_eq, workspace_path_for, Ensured, workspace, failed,
  workspace_out_of_root, workspace_create, contained, ensure_for_issue, remove, remove_key,
  component_eq,
}

-- A text of more than one component, as far as it may be
abbrev pub has_separator : String → Bool
has_separator String.[] = false
has_separator (String.◌∷◌ c s) = code c == 47 || has_separator s

split_path_whole : (key : String) → has_separator key ≡ false → split_path key ≡ (key, [])
unfolding split_path
split_path_whole String.[] h = refl
split_path_whole (String.◌∷◌ c s) h =
    rw (split_path_whole s (ground (arith, h))) (ground (arith, h))

relative : (key : String) → has_separator key ≡ false → is_absolute key ≡ false
relative String.[] h = refl
relative (String.◌∷◌ c s) h = ground (arith, h)

join_path_lem :
    (root : FilePath) (key : String)
    → has_separator key ≡ false
    → join_path root key ≡ root ++ component_of key
unfolding join_path components
join_path_lem root key h =
    rw (relative key h, split_path_whole key h)
      (ap (λ c. root ++ c) (append-nil (component_of key)))

safe_char : (c : Char) → is_safe_char c ≡ true → code c ≢ 47
unfolding is_safe_char
safe_char c h e = ground (arith, h, e)

-- A key has no separator.
sanitize-has_separator : (s : String) → has_separator (sanitize_workspace_key s) ≡ false
unfolding sanitize_workspace_key
sanitize-has_separator String.[] = refl
sanitize-has_separator (String.◌∷◌ c s) = elim (Bool-cases (is_safe_char c)) [
  | inl e ↦ rw (e, sanitize-has_separator s) (ground (arith, safe_char c e))
  | inr e ↦ rw (e, sanitize-has_separator s) refl
]

-- Where the directory of a key is
abbrev pub place : FilePath → String → FilePath
place root key =
    if str_eq key "."
    then root
    else if str_eq key ".."
    then root ++ parent_dir ∷ []
    else root ++ normal key ∷ []

component_of-place :
    (root : FilePath) (key : String)
    → is_empty_str key ≡ false
    → root ++ component_of key ≡ place root key
unfolding component_of
component_of-place root key filled = elim (Bool-cases (str_eq key ".")) [
  | inl e ↦ rw (filled, e) (append-nil root)
  | inr e ↦
      rw (filled, e)
        (elim (Bool-cases (str_eq key "..")) [ inl d ↦ rw (d) refl | inr d ↦ rw (d) refl ])
]

abbrev pub Outside : FilePath → Option FilePath → Type 0
Outside root none = ⊥
Outside root (some path) = starts_with path root ≡ false

module _ (path_exists is_dir create_dir_all : FilePath → Bool)
    (canonicalize : FilePath → Option FilePath) where
  -- What an answer says: a workspace stands below the root, is the canonical path of its directory,
  -- and has the sanitized identifier for its key; an error has its cause.
  abbrev AnswersAt : FilePath → FilePath → String → Ensured → Type 0
  AnswersAt at root identifier (workspace path key created_now) =
      (starts_with path root ≡ true)
      × (key ≡ sanitize_workspace_key identifier)
      × (is_empty_str key ≡ false)
      × (canonicalize (at) ≡ some path)
      × (created_now ≡ not (path_exists (at)))
  AnswersAt at root identifier (failed workspace_out_of_root) = Outside root (canonicalize at)
  AnswersAt at root identifier (failed workspace_create) =
      let key = sanitize_workspace_key identifier in
      let path = at in
      is_empty_str key
        || (path_exists path && not (is_dir path))
        || (not (path_exists path) && not (create_dir_all path))
        || not (is_some (canonicalize path))
      ≡ true

  abbrev pub Answers : FilePath → String → Ensured → Type 0
  Answers root identifier =
      AnswersAt (place root (sanitize_workspace_key identifier)) root identifier

  contained-Answers :
      (root : FilePath) (identifier : String) (created_now : Bool) (canonical : Option FilePath)
      → is_empty_str (sanitize_workspace_key identifier) ≡ false
      → created_now ≡ not (path_exists (join_path root (sanitize_workspace_key identifier)))
      → canonicalize (join_path root (sanitize_workspace_key identifier)) ≡ canonical
      → AnswersAt (join_path root (sanitize_workspace_key identifier)) root identifier (
          contained path_exists is_dir create_dir_all canonicalize root
            (sanitize_workspace_key identifier)
            created_now
            canonical)
  contained-Answers root identifier created_now none filled created found =
      rw (found) (ground arith)
  contained-Answers root identifier created_now (some path) filled created found =
      elim (Bool-cases (starts_with path root)) [
        | inl e ↦ rw (e) (e, refl, filled, found, created)
        | inr e ↦ rw (e) (rw (found) e)
      ]

  ensure_for_issue-joined :
      (root : FilePath) (identifier : String)
      → AnswersAt
          (join_path root (sanitize_workspace_key identifier))
          root
          identifier
          (ensure_for_issue path_exists is_dir create_dir_all canonicalize root identifier)
  unfolding ensure_for_issue
  ensure_for_issue-joined root identifier =
      elim (Bool-cases (is_empty_str (sanitize_workspace_key identifier))) [
        | inl e ↦ rw (e) (ground arith)
        | inr e ↦
            rw (e)
              (elim (Bool-cases
                (path_exists (join_path root (sanitize_workspace_key identifier)))) [
                  | inl x ↦
                      rw (x)
                        (elim (Bool-cases
                          (is_dir (join_path root (sanitize_workspace_key identifier)))) [
                            | inl d ↦
                                rw (d)
                                  (contained-Answers root identifier false _ e (rw (x) refl) refl)
                            | inr d ↦ rw (d) (ground arith)
                          ])
                  | inr x ↦
                      rw (x)
                        (elim (Bool-cases
                          (create_dir_all (join_path root (sanitize_workspace_key identifier)))) [
                            | inl d ↦
                                rw (d)
                                  (contained-Answers root identifier true _ e (rw (x) refl) refl)
                            | inr d ↦ rw (d) (ground arith)
                          ])
                ])
      ]

  ensure_for_issue-empty :
      (root : FilePath) (identifier : String)
      → is_empty_str (sanitize_workspace_key identifier) ≡ true
      → Answers root identifier
          (ensure_for_issue path_exists is_dir create_dir_all canonicalize root identifier)
  unfolding ensure_for_issue
  ensure_for_issue-empty root identifier e = rw (e) (ground (arith, e))

  same_place :
      (root : FilePath) (identifier : String)
      → is_empty_str (sanitize_workspace_key identifier) ≡ false
      → join_path root (sanitize_workspace_key identifier)
        ≡ place root (sanitize_workspace_key identifier)
  same_place root identifier filled =
      join_path_lem root (sanitize_workspace_key identifier) (sanitize-has_separator identifier)
      ∙ component_of-place root (sanitize_workspace_key identifier) filled

  -- Whatever the file system answers, a workspace that is handed out is the canonical path of the
  -- directory of its key, the non-empty sanitized identifier: that child of the root, or the root
  -- itself where the key is `.`, or the root's parent where it is `..`. The canonical path is the root
  -- or below it, and the workspace was created exactly when the directory did not exist; an error
  -- tells what was wrong.
  pub ensure_for_issue_lem :
      (root : FilePath) (identifier : String)
      → Answers root identifier
          (ensure_for_issue path_exists is_dir create_dir_all canonicalize root identifier)
  ensure_for_issue_lem root identifier =
      elim (Bool-cases (is_empty_str (sanitize_workspace_key identifier))) [
        | inl e ↦ ensure_for_issue-empty root identifier e
        | inr e ↦
            subst
              (λ at.
                AnswersAt at root identifier
                  (ensure_for_issue path_exists is_dir create_dir_all canonicalize root identifier))
              (same_place root identifier e) (ensure_for_issue-joined root identifier)
      ]

component_eq_refl : (c : Component) → component_eq c c ≡ true
component_eq_refl parent_dir = refl
component_eq_refl (normal s) = eq_refl s

path_eq_root : (root : FilePath) → path_eq (root ++ []) root ≡ true
unfolding path_eq
path_eq_root [] = refl
path_eq_root (c ∷ root) = rw (component_eq_refl c, path_eq_root root) refl

components_of :
    (key : String) → ((component_of key ≡ []) ⊎ (key ≡ "..")) ⊎ (component_of key ≡ normal key ∷ [])
unfolding component_of
components_of key = elim (Bool-cases (is_empty_str key || str_eq key ".")) [
  | inl e ↦ rw (e) (inl (inl refl))
  | inr e ↦ rw (e) (elim (Bool-cases (str_eq key "..")) [
    | inl d ↦ inl (inr ((eq_iff key "..").0 d))
    | inr d ↦ rw (d) (inr refl)
  ])
]

components_normal :
    (key : String)
    → is_empty_str key ≡ false
    → key ≢ "."
    → key ≢ ".."
    → component_of key ≡ normal key ∷ []
unfolding component_of
components_normal key filled one two =
    ground (arith, filled, one, two, eq_iff key ".", eq_iff key "..")

guarded :
    (refused exists : Bool) (root path : FilePath)
    → (if refused then none else if exists then some path else none) ≡ some root
    → (refused ≡ false) × (root ≡ path)
guarded refused exists root path h = ground (arith, h)

module _ (path_exists is_dir create_dir_all : FilePath → Bool)
    (canonicalize : FilePath → Option FilePath) where
  -- The sweep of old workspaces removes a child of the root that has the key's name, and nothing
  -- else, for every key that is one file name (it has no separator) other than `..`: not the root,
  -- where the key is empty or `.`.
  pub remove_key_child :
      (root path : FilePath) (key : String)
      → has_separator key ≡ false
      → key ≢ ".."
      → remove_key path_exists is_dir create_dir_all canonicalize root key ≡ some path
      → path ≡ root ++ (normal key ∷ [])
  unfolding remove_key
  remove_key_child root path key whole other h =
      let g = guarded _ _ path (join_path root key) h in
      elim (components_of key) [
        | inl (inl e) ↦
            let same : path_eq (join_path root key) root ≡ true =
              rw (join_path_lem root key whole, e) (path_eq_root root) in
            ground (arith, g.0, same)
        | inl (inr e) ↦ absurd (other e)
        | inr e ↦ g.1 ∙ join_path_lem root key whole ∙ ap (λ c. root ++ c) e
      ]

  -- The end of an issue removes one child of the root, which has the sanitized identifier for its
  -- name, whatever separators the identifier has, if the sanitized one is neither empty nor `.` nor
  -- `..`.
  pub remove_child :
      (root path : FilePath) (identifier : String)
      → is_empty_str (sanitize_workspace_key identifier) ≡ false
      → sanitize_workspace_key identifier ≢ "."
      → sanitize_workspace_key identifier ≢ ".."
      → remove path_exists is_dir create_dir_all canonicalize root identifier ≡ some path
      → path ≡ root ++ (normal (sanitize_workspace_key identifier) ∷ [])
  unfolding remove workspace_path_for
  remove_child root path identifier filled one two h =
      let g = guarded false _ path (join_path root (sanitize_workspace_key identifier)) h in
      g.1
      ∙ join_path_lem root (sanitize_workspace_key identifier) (sanitize-has_separator identifier)
      ∙ ap (λ c. root ++ c) (components_normal (sanitize_workspace_key identifier) filled one two)

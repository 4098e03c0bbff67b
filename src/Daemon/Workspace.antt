-- ===== src/Daemon/Workspace.antt =====
-- crates/sinfonia/src/workspace/manager.rs and the sweep of orchestrator/mod.rs: where workspaces
-- stand, and which are removed. A path is its components, the outermost first; a removal is the path
-- that is handed to `remove_dir_all`. What the file system answers is a parameter.
pub mod Paths
pub mod Sweep
use Prim.Native.Char.{code}
use sinfonia.Base.{
  ℕ, ◌-◌, ◌*◌, ◌≡◌, leb, ltb, ◌==◌, String, Bool, true, false, ◌&&◌, ◌||◌, not, Option, none, some,
  List, [], ◌∷◌, ◌++◌, Map, StringSet, member, values, map, filter, str_eq, is_empty_str,
  u64_saturating_mul, if◌then◌else◌,
}
use sinfonia.Domain.{RunningEntry, sanitize_workspace_key}

-- `Component`: a name, or `..`
pub data Component : Type 0 where
  parent_dir : Component
  normal : String → Component

abbrev pub FilePath : Type 0
FilePath = List Component

abbrev pub component_eq : Component → Component → Bool
component_eq parent_dir parent_dir = true
component_eq parent_dir (normal t) = false
component_eq (normal s) parent_dir = false
component_eq (normal s) (normal t) = str_eq s t

unfoldable pub starts_with : FilePath → FilePath → Bool
starts_with p [] = true
starts_with [] (c ∷ root) = false
starts_with (d ∷ p) (c ∷ root) = component_eq d c && starts_with p root

-- A text at its separators: the part before the first, and the others
unfoldable pub split_path : String → String × List String
split_path String.[] = (String.[], [])
split_path (String.◌∷◌ c s) =
    let (first, rest) = split_path s in
    if code c == 47 then (String.[], first ∷ rest) else (String.◌∷◌ c first, rest)

-- An empty part and `.` are no component.
unfoldable pub component_of : String → FilePath
component_of part =
    if is_empty_str part || str_eq part "."
    then []
    else if str_eq part ".."
    then parent_dir ∷ []
    else normal part ∷ []

abbrev pub all_components : List String → FilePath
all_components [] = []
all_components (part ∷ rest) = component_of part ++ all_components rest

unfoldable pub components : String → FilePath
components key = let (first, rest) = split_path key in component_of first ++ all_components rest

abbrev pub is_absolute : String → Bool
is_absolute String.[] = false
is_absolute (String.◌∷◌ c s) = code c == 47

-- `root.join(key)`: an absolute path takes the place of the root.
unfoldable pub join_path : FilePath → String → FilePath
join_path root key = if is_absolute key then components key else root ++ components key

unfoldable pub path_eq : FilePath → FilePath → Bool
path_eq [] [] = true
path_eq [] (c ∷ q) = false
path_eq (c ∷ p) [] = false
path_eq (c ∷ p) (d ∷ q) = component_eq c d && path_eq p q

unfoldable pub workspace_path_for : FilePath → String → FilePath
workspace_path_for root identifier = join_path root (sanitize_workspace_key identifier)

pub data EnsureError : Type 0 where
  workspace_create workspace_out_of_root : EnsureError

pub data Ensured : Type 0 where
  workspace : FilePath → String → Bool → Ensured
  failed : EnsureError → Ensured

-- The directory answers: whether a path exists, is a directory, can be created, and its canonical path
module _ (path_exists is_dir create_dir_all : FilePath → Bool)
    (canonicalize : FilePath → Option FilePath) where
  abbrev pub contained : FilePath → String → Bool → Option FilePath → Ensured
  contained root key created_now none = failed workspace_create
  contained root key created_now (some canonical) =
      if not (starts_with canonical root)
      then failed workspace_out_of_root
      else workspace canonical key created_now

  unfoldable pub ensure_for_issue : FilePath → String → Ensured
  ensure_for_issue root identifier =
      let key = sanitize_workspace_key identifier in
      let path = join_path root key in
      if is_empty_str key
      then failed workspace_create
      else if path_exists path
      then if not (is_dir path)
        then failed workspace_create
        else contained root key false (canonicalize path)
      else if not (create_dir_all path)
      then failed workspace_create
      else contained root key true (canonicalize path)

  -- What is removed, if anything
  unfoldable pub remove : FilePath → String → Option FilePath
  remove root identifier =
      let path = workspace_path_for root identifier in if path_exists path then some path else none

  unfoldable pub remove_key : FilePath → String → Option FilePath
  remove_key root key =
      let path = join_path root key in
      if path_eq path root || not (starts_with path root)
      then none
      else if path_exists path
      then some path
      else none

pub record WorkspaceEntry : Type 0 where
  pub key : String
  pub path : FilePath
  pub modified : Option ℕ

-- Times are in nanoseconds; a time of the future has no age.
abbrev pub is_old : ℕ → ℕ → Option ℕ → Bool
is_old now max_age none = false
is_old now max_age (some m) = leb m now && leb max_age (now - m)

unfoldable pub select_stale_workspaces : List WorkspaceEntry → StringSet → ℕ → ℕ → List String
select_stale_workspaces entries running_keys now max_age =
    map (λ (w : WorkspaceEntry). w.key)
      (filter (λ w. is_old now max_age w.modified)
        (filter (λ w. not (member w.key running_keys)) entries))

unfoldable pub running_keys : Map RunningEntry → StringSet
running_keys running =
    map (λ (r : RunningEntry). sanitize_workspace_key r.identifier) (values running)

-- The age-based part of `workspace_sweep`: the keys that are handed to `remove_key`
unfoldable pub reaped_keys : ℕ → ℕ → Map RunningEntry → List WorkspaceEntry → List String
reaped_keys max_age_hours now running entries =
    if max_age_hours == 0
    then []
    else select_stale_workspaces entries (running_keys running) now
        (u64_saturating_mul max_age_hours 3600 * 1000000000)

-- ===== src/Config/Paths.antt =====
-- Where the configuration file is looked for: `Resolve` of internal/config/config.go.
use passive_solar_mqtt_bridg.Prelude.{
  Bool, true, false, not, ◌≡◌, ◌⊎◌, inl, inr, refl, Option, none, some, List, [], ◌∷◌, ◌++◌, Bytes,
  All, ap, ◌∙◌, Bool-cases, Option-cases, if◌then◌else◌,
}
use passive_solar_mqtt_bridg.Config.Text.{is_empty}

-- What `os.Stat` says of a path: a directory or not, `os.ErrNotExist`, or another error.
pub data Stat : Type 0 where
  found : Bool → Stat
  missing stat_failed : Stat

-- The variables of the environment, "" where one is not set, and the file system.
pub record Environment : Type 0 where
  pub config_path : Bytes
  pub xdg_config_home : Bytes
  pub home : Bytes
  pub stat : Bytes → Stat
  -- `filepath.Join` of a directory with the names that follow: the first is below
  -- `XDG_CONFIG_HOME`, the second below `HOME`.
  pub join_xdg : Bytes → Bytes
  pub join_home : Bytes → Bytes

-- "/etc/passive-solar-mqtt/config.yaml"
abbrev pub system_path : Bytes
system_path =
    b'/' ∷ b'e' ∷ b't' ∷ b'c' ∷ b'/' ∷ b'p' ∷ b'a' ∷ b's' ∷ b's' ∷ b'i' ∷ b'v' ∷ b'e' ∷ b'-' ∷ b's'
    ∷ b'o' ∷ b'l' ∷ b'a' ∷ b'r' ∷ b'-' ∷ b'm' ∷ b'q' ∷ b't' ∷ b't' ∷ b'/' ∷ b'c' ∷ b'o' ∷ b'n'
    ∷ b'f' ∷ b'i' ∷ b'g' ∷ b'.' ∷ b'y' ∷ b'a' ∷ b'm' ∷ b'l' ∷ []

-- `fileExists`: `none` where it returns an error.
unfoldable pub file_exists : Stat → Option Bool
file_exists (found is_dir) = some (not is_dir)
file_exists missing = some false
file_exists stat_failed = none

-- `append(paths, …)` if the variable is set.
unfoldable pub if_set : Bytes → Bytes → List Bytes
if_set variable path = if is_empty variable then [] else path ∷ []

unfoldable pub candidate_paths : Environment → List Bytes
candidate_paths env =
    if_set env.config_path env.config_path
    ++ (if_set env.xdg_config_home (env.join_xdg env.xdg_config_home)
        ++ (if_set env.home (env.join_home env.home) ++ system_path ∷ []))

unfoldable pub default_write_path : Environment → Bytes
default_write_path env =
    if not (is_empty env.xdg_config_home)
    then env.join_xdg env.xdg_config_home
    else if not (is_empty env.home)
    then env.join_home env.home
    else system_path

-- A path and whether a file is there; or an error, with what the source returns beside it.
pub data Resolved : Type 0 where
  at_path : Bytes → Bool → Resolved
  failed_at : Bytes → Resolved

unfoldable pub at_given : Bytes → Option Bool → Resolved
at_given path none = failed_at path
at_given path (some exists) = at_path path exists

-- The loop over the candidates.
unfoldable pub search_paths : Environment → List Bytes → Resolved
search_paths env [] = at_path (default_write_path env) false
search_paths env (candidate ∷ more) =
    let rest = search_paths env more in
    if is_empty candidate then rest else (elim (file_exists (env.stat candidate)) [
      | none ↦ failed_at []
      | some exists ↦ if exists then at_path candidate true else rest
    ])

unfoldable pub resolve : Environment → Bytes → Resolved
resolve env explicit_path =
    if not (is_empty explicit_path)
    then at_given explicit_path (file_exists (env.stat explicit_path))
    else if not (is_empty env.config_path)
    then at_given env.config_path (file_exists (env.stat env.config_path))
    else search_paths env (candidate_paths env)

-- A candidate that is passed over: it is "", or no file is there.
abbrev pub NoFile : Environment → Bytes → Type 0
NoFile env path = (path ≡ []) ⊎ (file_exists (env.stat path) ≡ some false)

-- What a search may end with: the first candidate that is a file, the place where a new file
-- would be written if there is none, or an error at a candidate behind ones that were passed over.
abbrev pub IsFirst : Environment → List Bytes → Resolved → Type 0
IsFirst env paths (at_path path true) =
    (before : List Bytes) × (after : List Bytes) × (paths ≡ before ++ path ∷ after)
    × All (NoFile env) before
    × (file_exists (env.stat path) ≡ some true)
IsFirst env paths (at_path path false) = All (NoFile env) paths × (path ≡ default_write_path env)
IsFirst env paths (failed_at path) =
    (before : List Bytes) × (bad : Bytes) × (after : List Bytes) × (paths ≡ before ++ bad ∷ after)
    × All (NoFile env) before
    × (file_exists (env.stat bad) ≡ none)

IsFirst-cons :
    (env : Environment) (p : Bytes) (paths : List Bytes) (r : Resolved)
    → NoFile env p
    → IsFirst env paths r
    → IsFirst env (p ∷ paths) r
IsFirst-cons env p paths (at_path path true) n (before, after, e, all, f) =
    (p ∷ before, after, ap (λ (ps : List Bytes). p ∷ ps) e, (n, all), f)
IsFirst-cons env p paths (at_path path false) n (all, e) = ((n, all), e)
IsFirst-cons env p paths (failed_at path) n (before, bad, after, e, all, f) =
    (p ∷ before, bad, after, ap (λ (ps : List Bytes). p ∷ ps) e, (n, all), f)

search_paths-IsFirst :
    (env : Environment) (paths : List Bytes) → IsFirst env paths (search_paths env paths)
unfolding search_paths
search_paths-IsFirst env [] = (tt, refl)
search_paths-IsFirst env ([] ∷ more) =
    IsFirst-cons env [] more (search_paths env more) (inl refl) (search_paths-IsFirst env more)
search_paths-IsFirst env ((b ∷ bs) ∷ more) = elim (Option-cases (file_exists (env.stat (b ∷ bs)))) [
  | inl e ↦ rw e ([], b ∷ bs, more, refl, tt, e)
  | inr (exists, e) ↦ elim (Bool-cases exists) [
    | inl there ↦ rw (e, there) ([], more, refl, tt, e ∙ ap some there)
    | inr absent ↦
        rw (e, absent)
          (IsFirst-cons env (b ∷ bs) more (search_paths env more) (inr (e ∙ ap some absent))
            (search_paths-IsFirst env more))
  ]
]

-- With neither a path on the command line nor one in `PASSIVE_SOLAR_MQTT_CONFIG`, `Resolve` takes
-- the first candidate that is a file; without one it names the path for a new file and says that
-- it does not exist; it fails only at a candidate that cannot be read and that it gets to.
pub resolve-IsFirst :
    (env : Environment) → env.config_path ≡ [] → IsFirst env (candidate_paths env) (resolve env [])
unfolding resolve
resolve-IsFirst env unset = rw (ap is_empty unset) (search_paths-IsFirst env (candidate_paths env))

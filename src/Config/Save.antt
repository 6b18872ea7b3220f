-- ===== src/Config/Save.antt =====
-- Saving a configuration: `Save` of internal/config/config.go, and how it writes paths below the
-- home directory.
use passive_solar_mqtt_bridg.Prelude.{
  Bool, true, false, ◌&&◌, ◌||◌, Option, none, some, [], ◌∷◌, Bytes, ◌==◌, if◌then◌else◌,
}
use passive_solar_mqtt_bridg.Prelude.Text.{codes}
use passive_solar_mqtt_bridg.Config.Text.{is_empty, same_bytes}
use passive_solar_mqtt_bridg.Config.{Config, clean_value}

-- What the code calls: `os.Getenv("HOME")`, `os.UserHomeDir`, of the package filepath `Clean`,
-- `Rel`, and `ToSlash` of `Join` with "${HOME}", and then `yaml.Marshal`, `os.MkdirAll` of the
-- directory, and `os.WriteFile`.
pub record SaveCalls : Type 0 where
  pub home_variable : Bytes
  pub user_home_dir : Option Bytes
  pub clean : Bytes → Bytes
  pub rel : Bytes → Bytes → Option Bytes
  pub join_home : Bytes → Bytes
  pub marshal_yaml : Config → Option Bytes
  pub make_directory : Bytes → Bool
  pub write_file : Bytes → Bytes → Bool

-- `strings.HasPrefix`
unfoldable pub has_prefix : Bytes → Bytes → Bool
has_prefix [] s = true
has_prefix (p ∷ ps) [] = false
has_prefix (p ∷ ps) (b ∷ bs) = p == b && has_prefix ps bs

-- `strings.Contains`
unfoldable pub contains : Bytes → Bytes → Bool
contains part [] = has_prefix part []
contains part (b ∷ bs) = has_prefix part (b ∷ bs) || contains part bs

module _ (calls : SaveCalls) where
  -- The home directory; `none` is an error.
  unfoldable pub home_directory : Option Bytes
  home_directory =
      let home = clean_value calls.home_variable in
      if is_empty home
      then (elim calls.user_home_dir [ none ↦ none | some dir ↦ some (clean_value dir) ])
      else some home

  -- A path below the home directory, or the path as it is.
  unfoldable pub below_home : Bytes → Bytes → Bytes
  below_home home value =
      if same_bytes (calls.clean value) (calls.clean home)
      then codes "${HOME}"
      else (elim (calls.rel (calls.clean home) (calls.clean value)) [
        | none ↦ value
        | some relative ↦
            if same_bytes relative (codes ".") || has_prefix (codes "..") relative
            then value
            else calls.join_home relative
      ])

  unfoldable pub compact_home_path : Bytes → Bytes
  compact_home_path path =
      let value = clean_value path in
      if is_empty value || contains (codes "${HOME}") value then value else (elim home_directory [
        | none ↦ value
        | some home ↦ if is_empty home then value else below_home home value
      ])

  unfoldable pub for_save : Config → Config
  for_save cfg = record cfg {
    input = record cfg.input { file = compact_home_path cfg.input.file };
    mqtt = record cfg.mqtt { password_file = compact_home_path cfg.mqtt.password_file };
    homeassistant = record cfg.homeassistant {
      mapping_file = compact_home_path cfg.homeassistant.mapping_file;
    };
  }

  -- Whether `Save` returns no error.
  unfoldable pub save : Bytes → Config → Bool
  save path cfg = elim (calls.marshal_yaml (for_save cfg)) [
    | none ↦ false
    | some bytes ↦ if calls.make_directory path then calls.write_file path bytes else false
  ]

-- ===== src/Config/Precedence.antt =====
-- The order of the sources in internal/config/loader.go: what a setting is in the configuration that
-- `Loader.Load` returns.
use loyalty_system.Prelude.{
  ◌≡◌, refl, ap, ◌∙◌, inl, inr, true, Option, none, some, List, [], ◌∷◌, Text, if◌then◌else◌,
}
use loyalty_system.Prelude.Strings.{bytes}
use loyalty_system.Errors.{ok, done}
use loyalty_system.Config.{Config, default_config}
use loyalty_system.Config.Loader.{
  OsLib, KoanfLib, FlagLib, Loader, env_key, load_standard_env, load_flags, define_flags, load,
}
use loyalty_system.Config.Settings.{Setting, key_of, field, flag_of, variable_of, prefer}
use loyalty_system.Config.Layers.{
  KoanfLaws, last_of, variable_value, load_standard_env_at, load_flags_at,
}
use loyalty_system.Config.Loaded.{Loaded, load-Loaded}

-- The first value that is there, or a default.
abbrev pub first_of : List (Option Text) → Text → Text
first_of [] default = default
first_of (none ∷ rest) default = first_of rest default
first_of (some v ∷ rest) default = v

prefer-first_of :
    (a : Option Text) (rest : List (Option Text)) (default : Text)
    → prefer a (some (first_of rest default)) ≡ some (first_of (a ∷ rest) default)
prefer-first_of none rest default = refl
prefer-first_of (some v) rest default = refl

module _ {O : Type 0} (os : OsLib O) (lib : KoanfLib O) (flag_lib : FlagLib)
    (laws : KoanfLaws lib) where
  -- What the file at a path has for a setting: nothing if it does not exist.
  abbrev pub in_file : O → (path : Text) → Setting → Option Text
  in_file o path s =
      if os.is_not_exist path o then none else laws.contents (lib.yaml_file path) o (key_of s)

  abbrev pub in_env : O → Setting → Option Text
  in_env o s = laws.contents (lib.env (bytes "LOYALTY_SYSTEM_") env_key) o (key_of s)

  yaml_layer :
      (o : O) (l : Loader lib.Koanf) (cfg : Config) (s : Setting)
      (d : Loaded os lib flag_lib o l cfg)
      → laws.is_sectioned (lib.yaml_file l.config_path) o ≡ true
      → laws.get d.k2 (key_of s) ≡ prefer (in_file o l.config_path s) (laws.get d.k1 (key_of s))
  yaml_layer o l cfg s d sectioned = elim d.yaml [
    | inl (gone, same) ↦ rw (gone, same) refl
    | inr (there, loaded) ↦ rw there (laws.get-load s _ o d.k1 d.k2 sectioned loaded)
  ]

  defaults_layer :
      (o : O) (l : Loader lib.Koanf) (cfg : Config) (s : Setting)
      (d : Loaded os lib flag_lib o l cfg)
      → laws.get d.k1 (key_of s) ≡ some (field s default_config)
  defaults_layer o l cfg s d =
      laws.get-load s (lib.structs default_config) o l.k d.k1
        (laws.structs_sectioned default_config o) d.defaults
      ∙ ap (λ x. prefer x (laws.get l.k (key_of s))) (laws.contents-structs s default_config o)

  -- In the configuration that `Load` returns, every text setting is what the last of its flags on the
  -- command line says, or else its own variable if that is not empty, or else its `LOYALTY_SYSTEM_`
  -- variable, or else the file that the loader was made for, or else the default, where neither the file
  -- nor the variables put a plain value in the place of a section.
  pub load-field :
      (o : O) (l l' : Loader lib.Koanf) (cfg : Config) (s : Setting)
      → load os lib flag_lib o l ≡ (ok cfg, l')
      → laws.is_sectioned (lib.yaml_file l.config_path) o ≡ true
      → laws.is_sectioned (lib.env (bytes "LOYALTY_SYSTEM_") env_key) o ≡ true
      → (visited : List (Text × Text)) × (flag_lib.parse
            (define_flags os lib flag_lib l).flags.defined
            (os.args o)
          ≡ done visited)
        × (field s cfg
            ≡ first_of
                (last_of (flag_of s) visited
                  ∷ variable_value (variable_of s) (λ name. os.getenv name o)
                  ∷ in_env o s
                  ∷ in_file o l.config_path s
                  ∷ [])
                (field s default_config))
  load-field o l l' cfg s h yaml_sectioned env_sectioned =
      let d = load-Loaded os lib flag_lib o l l' cfg h in
      let key = key_of s in
      let k4 = load_standard_env os lib flag_lib o d.k3 in
      let flag = last_of (flag_of s) d.visited in
      let variable = variable_value (variable_of s) (λ name. os.getenv name o) in
      let file = in_file o l.config_path s in
      let env = in_env o s in
      let default = field s default_config in
      let at_yaml : laws.get d.k2 key ≡ some (first_of (file ∷ []) default) =
        yaml_layer o l cfg s d yaml_sectioned
        ∙ ap (prefer file) (defaults_layer o l cfg s d)
        ∙ prefer-first_of file [] default in
      let at_env : laws.get d.k3 key ≡ some (first_of (env ∷ file ∷ []) default) =
        laws.get-load s (lib.env (bytes "LOYALTY_SYSTEM_") env_key) o d.k2 d.k3 env_sectioned
          d.environment
        ∙ ap (prefer env) at_yaml
        ∙ prefer-first_of env (file ∷ []) default in
      let at_variable : laws.get k4 key ≡ some (first_of (variable ∷ env ∷ file ∷ []) default) =
        load_standard_env_at os lib flag_lib laws s o d.k3
        ∙ ap (prefer variable) at_env
        ∙ prefer-first_of variable (env ∷ file ∷ []) default in
      let at_flag : laws.get (load_flags os lib flag_lib d.visited k4) key
          ≡ some (first_of (flag ∷ variable ∷ env ∷ file ∷ []) default) =
        load_flags_at os lib flag_lib laws s d.visited k4
        ∙ ap (prefer flag) at_variable
        ∙ prefer-first_of flag (variable ∷ env ∷ file ∷ []) default in
      (d.visited, d.parsed, laws.field-unmarshal s _ cfg _ d.unmarshalled at_flag)

-- ===== src/Config/Loader.antt =====
-- internal/config/loader.go: `Loader.Load`. The packages koanf (with its providers and the YAML parser)
-- and pflag are parameters, and so is what the loader asks of the operating system.
use loyalty_system.Prelude.{
  ℕ, ◌+◌, ◌&&◌, Bool, Option, none, some, List, [], ◌∷◌, Text, text_eq, map, leb, ◌==◌,
  if◌then◌else◌,
}
use loyalty_system.Prelude.Strings.{bytes}
use loyalty_system.Errors.{Reply, done, fault, result_of, Exec, pure, wrapping, ◌>>◌}
use loyalty_system.Config.{Config, default_config}

-- `os.Args[1:]`, `os.Getenv`, and whether `os.Stat` says that a file does not exist.
pub record OsLib (O : Type 0) : Type 0 where
  pub args : O → List Text
  pub getenv : Text → O → Text
  pub is_not_exist : Text → O → Bool

-- `set` gives what `Set` leaves, whose error the loader ignores.
pub record KoanfLib (O : Type 0) : Type 1 where
  pub Koanf : Type 0
  pub Provider : Type 0
  pub new : (delim : Text) → Koanf
  pub structs : Config → Provider
  pub yaml_file : Text → Provider
  pub env : (prefix : Text) (key : Text → Text) → Provider
  pub load : Provider → O → Koanf → Reply Koanf
  pub set : (key value : Text) → Koanf → Koanf
  pub unmarshal : Koanf → Reply Config

-- `parse` takes the names that are defined with their defaults, and gives the flags that were passed, as
-- `Visit` goes through them.
pub record FlagLib : Type 0 where
  pub parse : List (Text × Text) → (args : List Text) → Reply (List (Text × Text))

pub record FlagSet : Type 0 where
  pub defined : List (Text × Text)
  pub visited : List (Text × Text)

pub record Loader (K : Type 0) : Type 0 where
  pub k : K
  pub config_path : Text
  pub flags : FlagSet

abbrev pub lookup : Text → List (Text × Text) → Option Text
lookup name [] = none
lookup name ((n, v) ∷ rest) = if text_eq n name then some v else lookup name rest

abbrev pub value_or : Text → Option Text → Text
value_or default none = default
value_or default (some v) = v

-- `strings.TrimPrefix`, `strings.ToLower` on ASCII and `strings.ReplaceAll(s, "_", ".")`.
unfoldable pub trim_from : (whole prefix s : Text) → Text
trim_from whole [] s = s
trim_from whole (p ∷ prefix) [] = whole
trim_from whole (p ∷ prefix) (c ∷ s) = if p == c then trim_from whole prefix s else whole

abbrev pub to_lower : ℕ → ℕ
to_lower c = if leb b'A' c && leb c b'Z' then c + 32 else c

abbrev pub dotted : ℕ → ℕ
dotted c = if c == b'_' then b'.' else c

abbrev env_prefix : Text
env_prefix = bytes "LOYALTY_SYSTEM_"

-- The function `cb` of `loadEnv`.
abbrev pub key_from : (key s : Text) → Text
key_from key s = if text_eq key s then [] else map (λ c. dotted (to_lower c)) key

unfoldable pub env_key : Text → Text
env_key s = key_from (trim_from s env_prefix s) s

abbrev pub flag_mapping : List (Text × Text)
flag_mapping =
    (bytes "a", bytes "server.run_address")
    ∷ (bytes "d", bytes "storage.uri")
    ∷ (bytes "r", bytes "accrual.address")
    ∷ (bytes "postgres-host", bytes "storage.host")
    ∷ (bytes "postgres-port", bytes "storage.port")
    ∷ (bytes "postgres-database", bytes "storage.database")
    ∷ (bytes "postgres-user", bytes "storage.user")
    ∷ (bytes "postgres-password", bytes "storage.password")
    ∷ []

module _ {O : Type 0} (os : OsLib O) (lib : KoanfLib O) (flag_lib : FlagLib) where
  abbrev L : Type 0
  L = Loader lib.Koanf

  unfoldable pub new_loader : Text → Loader lib.Koanf
  new_loader config_path = record {
    k = lib.new (bytes ".");
    config_path = if text_eq config_path [] then bytes "/config/config.yml" else config_path;
    flags = record { defined = []; visited = [] };
  }

  abbrev set_k : L → lib.Koanf → L
  set_k l k = record l { k = k }

  abbrev pub load_provider : lib.Provider → O → Exec (Loader lib.Koanf) (Unit {0})
  load_provider p o l = elim (lib.load p o l.k) [
    | done k ↦ pure tt (set_k l k)
    | fault n ↦ (result_of (fault n), l)
  ]

  abbrev pub load_defaults : O → Exec (Loader lib.Koanf) (Unit {0})
  load_defaults o = wrapping "loadDefaults" (load_provider (lib.structs default_config) o)

  abbrev pub load_yaml : O → Exec (Loader lib.Koanf) (Unit {0})
  load_yaml o l =
      if os.is_not_exist l.config_path o
      then pure tt l
      else wrapping "loadYAML" (load_provider (lib.yaml_file l.config_path) o) l

  abbrev pub load_env : O → Exec (Loader lib.Koanf) (Unit {0})
  load_env o = wrapping "loadEnv" (load_provider (lib.env env_prefix env_key) o)

  abbrev pub set_env : O → (key env_name : Text) → lib.Koanf → lib.Koanf
  set_env o key env_name k =
      let value = os.getenv env_name o in if text_eq value [] then k else lib.set key value k

  unfoldable pub load_standard_env : O → lib.Koanf → lib.Koanf
  load_standard_env o k =
      let k1 = set_env o (bytes "server.run_address") (bytes "RUN_ADDRESS") k in
      let k2 = set_env o (bytes "storage.uri") (bytes "DATABASE_URI") k1 in
      let k3 = set_env o (bytes "accrual.address") (bytes "ACCRUAL_SYSTEM_ADDRESS") k2 in
      let k4 = set_env o (bytes "auth.secret") (bytes "AUTH_SECRET") k3 in
      set_env o (bytes "auth.ttl") (bytes "AUTH_TTL") k4

  abbrev pub define_flags : L → L
  define_flags l = record l {
    flags = record l.flags {
      defined =
          (bytes "a", [])
          ∷ (bytes "d", [])
          ∷ (bytes "r", [])
          ∷ (bytes "postgres-host", [])
          ∷ (bytes "postgres-port", [])
          ∷ (bytes "postgres-database", [])
          ∷ (bytes "postgres-user", [])
          ∷ (bytes "postgres-password", [])
          ∷ (bytes "config", l.config_path)
          ∷ [];
    };
  }

  -- `StringVar` has bound the flag `config` to the path.
  abbrev pub parse_flags : O → Exec (Loader lib.Koanf) (Unit {0})
  parse_flags o l = elim (flag_lib.parse l.flags.defined (os.args o)) [
    | done visited ↦ pure tt (record l {
      config_path = value_or l.config_path (lookup (bytes "config") visited);
      flags = record l.flags { visited = visited };
    })
    | fault n ↦ (result_of (fault n), l)
  ]

  abbrev pub set_flag : Option Text → (value : Text) → lib.Koanf → lib.Koanf
  set_flag none value k = k
  set_flag (some config_key) value k = lib.set config_key value k

  unfoldable pub load_flags : List (Text × Text) → lib.Koanf → lib.Koanf
  load_flags [] k = k
  load_flags ((name, value) ∷ rest) k =
      load_flags rest (set_flag (lookup name flag_mapping) value k)

  abbrev pub modify : (L → L) → Exec L (Unit {0})
  modify f l = pure tt (f l)

  unfoldable pub load : O → Exec (Loader lib.Koanf) Config
  load o =
      wrapping "failed to load defaults" (load_defaults o)
      >> wrapping "failed to load YAML config" (load_yaml o)
      >> wrapping "failed to load environment variables" (load_env o)
      >> modify (λ l. define_flags (set_k l (load_standard_env o l.k)))
      >> wrapping "failed to parse flags" (parse_flags o)
      >> modify (λ l. set_k l (load_flags l.flags.visited l.k))
      >> wrapping "failed to unmarshal config" (λ l. (result_of (lib.unmarshal l.k), l))

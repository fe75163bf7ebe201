-- ===== src/Config/Tests.antt =====
-- A configuration store as a list of keys and values, and the theorems of the configuration on it.
use loyalty_system.Prelude.{
  ◌≡◌, refl, ap, ◌∙◌, sym, true, false, some, List, [], ◌∷◌, ◌++◌, Text, text_eq, inl, inr,
  Bool-cases,
}
use loyalty_system.Prelude.Int.{pos}
use loyalty_system.Prelude.Strings.{bytes}
use loyalty_system.Errors.{done, ok}
use loyalty_system.Config.{Config, default_config, database_dsn}
use loyalty_system.Config.Loader.{
  OsLib, KoanfLib, FlagLib, Loader, env_key, trim_from, load_standard_env, load_flags, define_flags,
  load, lookup, value_or,
}
use loyalty_system.Config.Settings.{
  Setting, run_address, uri, host, port, database, user, password, secret, ttl, address,
  poll_interval, key_of, field, flag_of, variable_of, prefer,
}
use loyalty_system.Config.Layers.{KoanfLaws, last_of, variable_value}
use loyalty_system.Config.Precedence.{first_of, in_env, in_file, load-field}

abbrev Entries : Type 0
Entries = List (Text × Text)

-- The contents of the configuration file, the variables, and the flags as they were parsed.
record Machine : Type 0 where
  file : Entries
  variables : Entries
  flags : Entries

abbrev machine : OsLib Machine
machine = record {
  args = λ o. [];
  getenv = λ name o. value_or [] (lookup name o.variables);
  is_not_exist = λ path o. false;
}

abbrev entries : Config → Entries
entries c =
    (key_of run_address, c.server.run_address)
    ∷ (key_of uri, c.storage.uri)
    ∷ (key_of host, c.storage.host)
    ∷ (key_of port, c.storage.port)
    ∷ (key_of database, c.storage.database)
    ∷ (key_of user, c.storage.user)
    ∷ (key_of password, c.storage.password)
    ∷ (key_of secret, c.auth.secret)
    ∷ (key_of ttl, c.auth.ttl)
    ∷ (key_of address, c.accrual.address)
    ∷ (key_of poll_interval, c.accrual.poll_interval)
    ∷ []

abbrev renamed : (Text → Text) → Entries → Entries
renamed f [] = []
renamed f ((name, v) ∷ rest) = (f name, v) ∷ renamed f rest

abbrev read : Entries → Setting → Text
read k s = value_or [] (lookup (key_of s) k)

abbrev config_from : Entries → Config
config_from k = record {
  server = record { run_address = read k run_address };
  storage = record {
    uri = read k uri;
    host = read k host;
    port = read k port;
    database = read k database;
    user = read k user;
    password = read k password;
  };
  auth = record { secret = read k secret; ttl = read k ttl };
  accrual = record {
    address = read k address;
    workers = pos 3;
    poll_interval = read k poll_interval;
  };
}

abbrev store : KoanfLib Machine
store = record {
  Koanf = Entries;
  Provider = Machine → Entries;
  new = λ delim. [];
  structs = λ c o. entries c;
  yaml_file = λ path o. o.file;
  env = λ prefix f o. renamed f o.variables;
  load = λ p o k. done (p o ++ k);
  set = λ key v k. (key, v) ∷ k;
  unmarshal = λ k. done (config_from k);
}

lookup-append :
    (key : Text) (a b : Entries) → lookup key (a ++ b) ≡ prefer (lookup key a) (lookup key b)
lookup-append key [] b = refl
lookup-append key ((n, v) ∷ a) b = elim (Bool-cases (text_eq n key)) [
  | inl same ↦ rw same refl
  | inr other ↦ rw other (lookup-append key a b)
]

done_eq : {A : Type 0} {a b : A} → done a ≡ done b → a ≡ b
done_eq e = cc

contents_lem : (s : Setting) (c : Config) → lookup (key_of s) (entries c) ≡ some (field s c)
unfolding text_eq
contents_lem run_address c = refl
contents_lem uri c = refl
contents_lem host c = refl
contents_lem port c = refl
contents_lem database c = refl
contents_lem user c = refl
contents_lem password c = refl
contents_lem secret c = refl
contents_lem ttl c = refl
contents_lem address c = refl
contents_lem poll_interval c = refl

field_lem : (s : Setting) (k : Entries) → field s (config_from k) ≡ read k s
field_lem run_address k = refl
field_lem uri k = refl
field_lem host k = refl
field_lem port k = refl
field_lem database k = refl
field_lem user k = refl
field_lem password k = refl
field_lem secret k = refl
field_lem ttl k = refl
field_lem address k = refl
field_lem poll_interval k = refl

abbrev store_laws : KoanfLaws store
store_laws = record {
  get = λ k key. lookup key k;
  contents = λ p o key. lookup key (p o);
  is_sectioned = λ p o. true;
  get-set = λ s t v k. refl;
  get-load =
      λ s p o k k' h e. ap (lookup (key_of s)) (sym (done_eq e)) ∙ lookup-append (key_of s) (p o) k;
  contents-structs = λ s c o. contents_lem s c;
  structs_sectioned = λ c o. refl;
  field-unmarshal =
      λ s k c v e h. ap (field s) (sym (done_eq e)) ∙ field_lem s k ∙ ap (value_or []) h;
}

-- The address stands in the file, in a variable and on the command line.
abbrev here : Machine
here = record {
  file = (bytes "server.run_address", bytes ":1") ∷ (bytes "storage.host", bytes "db") ∷ [];
  variables =
      (bytes "LOYALTY_SYSTEM_STORAGE_PORT", bytes "6000")
      ∷ (bytes "RUN_ADDRESS", bytes ":2")
      ∷ (bytes "LOYALTY_SYSTEM_SERVER_RUN_ADDRESS", bytes ":3")
      ∷ [];
  flags = (bytes "a", bytes ":4") ∷ (bytes "config", bytes "other.yml") ∷ [];
}

abbrev passed : FlagLib
passed = record { parse = λ defined args. done here.flags }

abbrev fresh : Loader Entries
fresh = record {
  k = [];
  config_path = bytes "config.yml";
  flags = record { defined = []; visited = [] };
}

abbrev after : Loader Entries
after = (load machine store passed here fresh).1

load_test :
    (load machine store passed here fresh).0
    ≡ ok (record default_config {
      server = record { run_address = bytes ":4" };
      storage = record default_config.storage { host = bytes "db"; port = bytes "6000" };
    })
unfolding load load_standard_env load_flags env_key trim_from text_eq
load_test = refl

load_runs :
    load machine store passed here fresh
    ≡ (ok (config_from (load machine store passed here fresh).1.k), after)
unfolding load load_standard_env load_flags env_key trim_from text_eq
load_runs = refl

load-field_example :
    (visited : Entries) × (passed.parse (define_flags machine store passed fresh).flags.defined []
      ≡ done visited)
    × (field run_address (config_from after.k)
        ≡ first_of
            (last_of (flag_of run_address) visited
              ∷ variable_value (variable_of run_address) (λ name. machine.getenv name here)
              ∷ in_env machine store passed store_laws here run_address
              ∷ in_file machine store passed store_laws here (bytes "config.yml") run_address
              ∷ [])
            (field run_address default_config))
load-field_example =
    load-field machine store passed store_laws here fresh after (config_from after.k) run_address
      load_runs refl refl

database_dsn_test :
    database_dsn
      (record { join_host_port = λ h p. h; encode = λ q. []; to_string = λ u. u.host ++ u.path })
      default_config.storage
    ≡ bytes "localhost/loyalty-system"
unfolding database_dsn text_eq
database_dsn_test = refl

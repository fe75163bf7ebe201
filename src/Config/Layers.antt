-- ===== src/Config/Layers.antt =====
-- The layers of internal/config/loader.go: what koanf is relied on for, and what a setting is after the
-- variables of the environment and the flags have been read.
use loyalty_system.Prelude.{
  ◌≡◌, refl, sym, ap, ◌∙◌, inl, inr, Bool, true, false, Option, none, some, String, List, [], ◌∷◌,
  Text, text_eq, if◌then◌else◌, Bool-cases,
}
use loyalty_system.Prelude.Strings.{bytes}
use loyalty_system.Errors.{done}
use loyalty_system.Config.{Config}
use loyalty_system.Config.Loader.{
  OsLib, KoanfLib, FlagLib, lookup, flag_mapping, set_env, set_flag, load_standard_env, load_flags,
}
use loyalty_system.Config.Settings.{
  Setting, run_address, uri, host, port, database, user, password, secret, ttl, address,
  poll_interval, key_of, field, flag_of, variable_of, prefer, is_set_by, flag_key, flag_name, sets,
  unknown,
}

-- What the loader relies on of koanf: a value stands under each key, `Load` puts a provider's values over
-- those that are there, `Set` changes one, and `Unmarshal` reads the fields by their tags. A provider
-- that has a plain value where a section belongs, as in `storage: x`, is not `is_sectioned`.
pub record KoanfLaws {O : Type 0} (lib : KoanfLib O) : Type 0 where
  pub get : lib.Koanf → Text → Option Text
  pub contents : lib.Provider → O → Text → Option Text
  pub is_sectioned : lib.Provider → O → Bool
  pub get-set :
      (s t : Setting) (v : Text) (k : lib.Koanf)
      → get (lib.set (key_of t) v k) (key_of s)
        ≡ (if text_eq (key_of t) (key_of s) then some v else get k (key_of s))
  pub get-load :
      (s : Setting) (p : lib.Provider) (o : O) (k k' : lib.Koanf)
      → is_sectioned p o ≡ true
      → lib.load p o k ≡ done k'
      → get k' (key_of s) ≡ prefer (contents p o (key_of s)) (get k (key_of s))
  pub contents-structs :
      (s : Setting) (c : Config) (o : O) → contents (lib.structs c) o (key_of s) ≡ some (field s c)
  pub structs_sectioned : (c : Config) (o : O) → is_sectioned (lib.structs c) o ≡ true
  pub field-unmarshal :
      (s : Setting) (k : lib.Koanf) (c : Config) (v : Text)
      → lib.unmarshal k ≡ done c
      → get k (key_of s) ≡ some v
      → field s c ≡ v

if_same : (b : Bool) (x : Option Text) → (if b then x else x) ≡ x
if_same true x = refl
if_same false x = refl

if_prefer :
    (b : Bool) (v : Text) (x : Option Text)
    → (if b then some v else x) ≡ prefer (if b then some v else none) x
if_prefer true v x = refl
if_prefer false v x = refl

prefer_assoc : (a b c : Option Text) → prefer (prefer a b) c ≡ prefer a (prefer b c)
prefer_assoc none b c = refl
prefer_assoc (some x) b c = refl

-- The value of a variable that is set, and the last value that a flag was given.
abbrev pub nonempty : Text → Option Text
nonempty value = if text_eq value [] then none else some value

abbrev pub last_of : Option Text → List (Text × Text) → Option Text
last_of flag [] = none
last_of flag ((name, value) ∷ rest) =
    prefer (last_of flag rest) (if is_set_by flag name then some value else none)

abbrev pub variable_value : Option Text → (Text → Text) → Option Text
variable_value none getenv = none
variable_value (some name) getenv = nonempty (getenv name)

module _ {O : Type 0} (os : OsLib O) (lib : KoanfLib O) (flag_lib : FlagLib)
    (laws : KoanfLaws lib) where
  set_env_at :
      (s t : Setting) (o : O) (name : Text) (k : lib.Koanf)
      → laws.get (set_env os lib flag_lib o (key_of t) name k) (key_of s) ≡ (
          if text_eq (key_of t) (key_of s)
          then prefer (nonempty (os.getenv name o)) (laws.get k (key_of s))
          else laws.get k (key_of s))
  set_env_at s t o name k = elim (Bool-cases (text_eq (os.getenv name o) [])) [
    | inl unset ↦ rw unset (sym (if_same (text_eq (key_of t) (key_of s)) (laws.get k (key_of s))))
    | inr given ↦ rw given (laws.get-set s t (os.getenv name o) k)
  ]

  abbrev over : O → Setting → String → Setting → Option Text → Option Text
  over o t name s below =
      if text_eq (key_of t) (key_of s)
      then prefer (nonempty (os.getenv (bytes name) o)) below
      else below

  standard_env_over :
      (s : Setting) (o : O) (k : lib.Koanf)
      → laws.get (load_standard_env os lib flag_lib o k) (key_of s)
        ≡ over o ttl "AUTH_TTL" s (
            over o secret "AUTH_SECRET" s (
              over o address "ACCRUAL_SYSTEM_ADDRESS" s (
                over o uri "DATABASE_URI" s
                  (over o run_address "RUN_ADDRESS" s (laws.get k (key_of s))))))
  unfolding load_standard_env
  standard_env_over s o k =
      let k1 = set_env os lib flag_lib o (key_of run_address) (bytes "RUN_ADDRESS") k in
      let k2 = set_env os lib flag_lib o (key_of uri) (bytes "DATABASE_URI") k1 in
      let k3 = set_env os lib flag_lib o (key_of address) (bytes "ACCRUAL_SYSTEM_ADDRESS") k2 in
      let k4 = set_env os lib flag_lib o (key_of secret) (bytes "AUTH_SECRET") k3 in
      set_env_at s ttl o (bytes "AUTH_TTL") k4
      ∙ ap (over o ttl "AUTH_TTL" s) (
          set_env_at s secret o (bytes "AUTH_SECRET") k3
          ∙ ap (over o secret "AUTH_SECRET" s) (
              set_env_at s address o (bytes "ACCRUAL_SYSTEM_ADDRESS") k2
              ∙ ap (over o address "ACCRUAL_SYSTEM_ADDRESS" s) (
                  set_env_at s uri o (bytes "DATABASE_URI") k1
                  ∙ ap (over o uri "DATABASE_URI" s)
                      (set_env_at s run_address o (bytes "RUN_ADDRESS") k))))

  -- Each variable of the environment sets its own setting, when it is not empty.
  pub load_standard_env_at :
      (s : Setting) (o : O) (k : lib.Koanf)
      → laws.get (load_standard_env os lib flag_lib o k) (key_of s)
        ≡ prefer (variable_value (variable_of s) (λ name. os.getenv name o)) (laws.get k (key_of s))
  unfolding text_eq
  load_standard_env_at run_address o k = standard_env_over run_address o k
  load_standard_env_at uri o k = standard_env_over uri o k
  load_standard_env_at host o k = standard_env_over host o k
  load_standard_env_at port o k = standard_env_over port o k
  load_standard_env_at database o k = standard_env_over database o k
  load_standard_env_at user o k = standard_env_over user o k
  load_standard_env_at password o k = standard_env_over password o k
  load_standard_env_at secret o k = standard_env_over secret o k
  load_standard_env_at ttl o k = standard_env_over ttl o k
  load_standard_env_at address o k = standard_env_over address o k
  load_standard_env_at poll_interval o k = standard_env_over poll_interval o k

  set_flag_at :
      (s : Setting) (name value : Text) (k : lib.Koanf)
      → laws.get (set_flag os lib flag_lib (lookup name flag_mapping) value k) (key_of s)
        ≡ (if is_set_by (flag_of s) name then some value else laws.get k (key_of s))
  set_flag_at s name value k = elim (flag_name name) [
    | sets t h e found ↦
        rw (found, e)
          (laws.get-set s t value k
            ∙ ap (λ b. if b then some value else laws.get k (key_of s)) (flag_key t s h))
    | unknown none_found none_set ↦ rw (none_found, none_set s) refl
  ]

  pub load_flags_at :
      (s : Setting) (visited : List (Text × Text)) (k : lib.Koanf)
      → laws.get (load_flags os lib flag_lib visited k) (key_of s)
        ≡ prefer (last_of (flag_of s) visited) (laws.get k (key_of s))
  unfolding load_flags
  load_flags_at s [] k = refl
  load_flags_at s ((name, value) ∷ rest) k =
      load_flags_at s rest (set_flag os lib flag_lib (lookup name flag_mapping) value k)
      ∙ ap (prefer (last_of (flag_of s) rest)) (
          set_flag_at s name value k
          ∙ if_prefer (is_set_by (flag_of s) name) value (laws.get k (key_of s)))
      ∙ sym (
          prefer_assoc (last_of (flag_of s) rest)
            (if is_set_by (flag_of s) name then some value else none) (laws.get k (key_of s)))

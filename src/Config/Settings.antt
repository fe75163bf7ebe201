-- ===== src/Config/Settings.antt =====
-- The text settings of internal/config/config.go, each with its key, flag and variable as
-- internal/config/loader.go names them, and the tables of the loader read setting by setting.
use loyalty_system.Prelude.{
  ◌≡◌, refl, sym, subst, inl, inr, Bool, true, false, not, ◌&&◌, Option, none, some, [], Text,
  text_eq, text_eq_iff, if◌then◌else◌, arith, Bool-cases,
}
use loyalty_system.Prelude.Strings.{bytes}
use loyalty_system.Config.{Config}
use loyalty_system.Config.Loader.{lookup, flag_mapping}

pub data Setting : Type 0 where
  run_address uri host port database user password secret ttl address poll_interval : Setting

abbrev pub key_of : Setting → Text
key_of run_address = bytes "server.run_address"
key_of uri = bytes "storage.uri"
key_of host = bytes "storage.host"
key_of port = bytes "storage.port"
key_of database = bytes "storage.database"
key_of user = bytes "storage.user"
key_of password = bytes "storage.password"
key_of secret = bytes "auth.secret"
key_of ttl = bytes "auth.ttl"
key_of address = bytes "accrual.address"
key_of poll_interval = bytes "accrual.poll_interval"

abbrev pub field : Setting → Config → Text
field run_address c = c.server.run_address
field uri c = c.storage.uri
field host c = c.storage.host
field port c = c.storage.port
field database c = c.storage.database
field user c = c.storage.user
field password c = c.storage.password
field secret c = c.auth.secret
field ttl c = c.auth.ttl
field address c = c.accrual.address
field poll_interval c = c.accrual.poll_interval

-- The flag that sets it on the command line, and its variable in the environment.
abbrev pub flag_of : Setting → Option Text
flag_of run_address = some (bytes "a")
flag_of uri = some (bytes "d")
flag_of address = some (bytes "r")
flag_of host = some (bytes "postgres-host")
flag_of port = some (bytes "postgres-port")
flag_of database = some (bytes "postgres-database")
flag_of user = some (bytes "postgres-user")
flag_of password = some (bytes "postgres-password")
flag_of _ = none

abbrev pub variable_of : Setting → Option Text
variable_of run_address = some (bytes "RUN_ADDRESS")
variable_of uri = some (bytes "DATABASE_URI")
variable_of address = some (bytes "ACCRUAL_SYSTEM_ADDRESS")
variable_of secret = some (bytes "AUTH_SECRET")
variable_of ttl = some (bytes "AUTH_TTL")
variable_of _ = none

-- The first value that is there.
abbrev pub prefer : Option Text → Option Text → Option Text
prefer none b = b
prefer (some a) b = some a

-- Does the flag of this name set it?
abbrev pub is_set_by : Option Text → (name : Text) → Bool
is_set_by none name = false
is_set_by (some flag) name = text_eq flag name

all_settings : (Setting → Bool) → Bool
all_settings p =
    p run_address
    && p uri
    && p host
    && p port
    && p database
    && p user
    && p password
    && p secret
    && p ttl
    && p address
    && p poll_interval

all_settings_sound : (p : Setting → Bool) (s : Setting) → all_settings p ≡ true → p s ≡ true
unfolding all_settings
all_settings_sound p run_address h = ground arith
all_settings_sound p uri h = ground arith
all_settings_sound p host h = ground arith
all_settings_sound p port h = ground arith
all_settings_sound p database h = ground arith
all_settings_sound p user h = ground arith
all_settings_sound p password h = ground arith
all_settings_sound p secret h = ground arith
all_settings_sound p ttl h = ground arith
all_settings_sound p address h = ground arith
all_settings_sound p poll_interval h = ground arith

abbrev agree : Bool → Bool → Bool
agree true b = b
agree false b = not b

agree_eq : (a b : Bool) → agree a b ≡ true → a ≡ b
agree_eq a b h = ground arith

abbrev pub flag_or_none : Option Text → Text
flag_or_none none = []
flag_or_none (some flag) = flag

-- A flag's key is the key of the setting that it sets, and of no other.
abbrev owns_key : Setting → Setting → Bool
owns_key t s =
    agree (text_eq (key_of t) (key_of s)) (is_set_by (flag_of s) (flag_or_none (flag_of t)))

abbrev pub has_flag : Option Text → Bool
has_flag none = false
has_flag (some flag) = true

keys_match :
    all_settings (λ t. if has_flag (flag_of t) then all_settings (owns_key t) else true) ≡ true
unfolding all_settings text_eq
keys_match = refl

pub flag_key :
    (t s : Setting)
    → has_flag (flag_of t) ≡ true
    → text_eq (key_of t) (key_of s) ≡ is_set_by (flag_of s) (flag_or_none (flag_of t))
flag_key t s h =
    let row : all_settings (owns_key t) ≡ true =
      subst (λ b. (if b then all_settings (owns_key t) else true) ≡ true) h
        (all_settings_sound (λ t. if has_flag (flag_of t) then all_settings (owns_key t) else true)
          t keys_match) in
    agree_eq _ _ (all_settings_sound (owns_key t) s row)

-- A name of a flag is that of some setting, or is not in the table of the loader.
pub data FlagName (name : Text) : Type 0 where
  sets :
      (t : Setting)
      → has_flag (flag_of t) ≡ true
      → name ≡ flag_or_none (flag_of t)
      → lookup name flag_mapping ≡ some (key_of t)
      → FlagName name
  unknown :
      lookup name flag_mapping ≡ none
      → ((s : Setting) → is_set_by (flag_of s) name ≡ false)
      → FlagName name

module _ (name : Text) where
  abbrev Names : Text → Type 0
  Names flag = text_eq flag name ≡ true

  known :
      (t : Setting)
      → has_flag (flag_of t) ≡ true
      → lookup (flag_or_none (flag_of t)) flag_mapping ≡ some (key_of t)
      → Names (flag_or_none (flag_of t))
      → FlagName name
  known t h e same =
      let named = (text_eq_iff (flag_or_none (flag_of t)) name).0 same in
      sets t h (sym named) (subst (λ n. lookup n flag_mapping ≡ some (key_of t)) named e)

  pub flag_name : FlagName name
  unfolding text_eq
  flag_name = elim (Bool-cases (text_eq (bytes "a") name)) [
    | inl e0 ↦ known run_address refl refl e0
    | inr n0 ↦ elim (Bool-cases (text_eq (bytes "d") name)) [
      | inl e1 ↦ known uri refl refl e1
      | inr n1 ↦ elim (Bool-cases (text_eq (bytes "r") name)) [
        | inl e2 ↦ known address refl refl e2
        | inr n2 ↦ elim (Bool-cases (text_eq (bytes "postgres-host") name)) [
          | inl e3 ↦ known host refl refl e3
          | inr n3 ↦ elim (Bool-cases (text_eq (bytes "postgres-port") name)) [
            | inl e4 ↦ known port refl refl e4
            | inr n4 ↦ elim (Bool-cases (text_eq (bytes "postgres-database") name)) [
              | inl e5 ↦ known database refl refl e5
              | inr n5 ↦ elim (Bool-cases (text_eq (bytes "postgres-user") name)) [
                | inl e6 ↦ known user refl refl e6
                | inr n6 ↦ elim (Bool-cases (text_eq (bytes "postgres-password") name)) [
                  | inl e7 ↦ known password refl refl e7
                  | inr n7 ↦ unknown (rw (n0, n1, n2, n3, n4, n5, n6, n7) refl) (λ s.
                      elim s as (λ r. is_set_by (flag_of r) name ≡ false) [
                        | run_address ↦ n0
                        | uri ↦ n1
                        | host ↦ n3
                        | port ↦ n4
                        | database ↦ n5
                        | user ↦ n6
                        | password ↦ n7
                        | secret ↦ refl
                        | ttl ↦ refl
                        | address ↦ n2
                        | poll_interval ↦ refl
                      ])
                ]
              ]
            ]
          ]
        ]
      ]
    ]
  ]

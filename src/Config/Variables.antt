-- ===== src/Config/Variables.antt =====
-- The keys that `loadEnv` of internal/config/loader.go makes of the names of variables.
use loyalty_system.Prelude.{
  ℕ, ◌≡◌, ◌≢◌, refl, ap, ◌∙◌, sym, inl, inr, false, Bool, [], ◌∷◌, Text, any, map, text_eq, ◌==◌,
  arith, Bool-cases,
}
use loyalty_system.Config.Loader.{env_key, key_from, dotted, to_lower}
use loyalty_system.Config.Settings.{key_of, run_address, poll_interval}

abbrev has_underscore : Text → Bool
has_underscore s = any (λ c. c == b'_') s

dotted_clean : (c : ℕ) → (dotted c == b'_') ≡ false
dotted_clean c = ground arith

map_clean : (s : Text) → has_underscore (map (λ c. dotted (to_lower c)) s) ≡ false
map_clean [] = refl
map_clean (c ∷ s) = rw (dotted_clean (to_lower c)) (map_clean s)

key_from_clean : (key s : Text) → has_underscore (key_from key s) ≡ false
key_from_clean key s = elim (Bool-cases (text_eq key s)) [
  | inl same ↦ rw same refl
  | inr other ↦ rw other (map_clean key)
]

env_key_clean : (name : Text) → has_underscore (env_key name) ≡ false
unfolding env_key
env_key_clean name = key_from_clean _ name

-- No variable is read as `server.run_address` or as `accrual.poll_interval`: the keys that the loader makes
-- of the names have a dot for every underscore.
pub env_key_misses :
    (name : Text) → (env_key name ≢ key_of run_address) × (env_key name ≢ key_of poll_interval)
env_key_misses name = (
  λ e. let h = sym (ap has_underscore e) ∙ env_key_clean name in cc,
  λ e. let h = sym (ap has_underscore e) ∙ env_key_clean name in cc,
)

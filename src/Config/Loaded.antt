-- ===== src/Config/Loaded.antt =====
-- The stages of `Loader.Load` in internal/config/loader.go, read off a configuration that it returned.
use loyalty_system.Prelude.{
  ◌≡◌, refl, sym, ap, ◌∙◌, subst, ◌⊎◌, inl, inr, Bool, true, false, String, List, [], Text,
  if◌then◌else◌, Bool-cases,
}
use loyalty_system.Prelude.Strings.{bytes}
use loyalty_system.Errors.{Result, ok, done, Reply-cases, Exec, pure, result_of, wrapping, ◌>>◌}
use loyalty_system.Config.{Config, default_config}
use loyalty_system.Config.Chain.{result_of-ok, seq-ok, wrapping-ok}
use loyalty_system.Config.Loader.{
  OsLib, KoanfLib, FlagLib, Loader, env_key, load_standard_env, load_flags, load_defaults,
  load_yaml, load_env, load_provider, parse_flags, define_flags, load,
}

module _ {O : Type 0} (os : OsLib O) (lib : KoanfLib O) (flag_lib : FlagLib) where
  -- What `Load` did when it returned a configuration.
  pub record Loaded (o : O) (l : Loader lib.Koanf) (cfg : Config) : Type 0 where
    pub k1 : lib.Koanf
    pub k2 : lib.Koanf
    pub k3 : lib.Koanf
    pub visited : List (Text × Text)
    pub defaults : lib.load (lib.structs default_config) o l.k ≡ done k1
    pub yaml :
        ((os.is_not_exist l.config_path o ≡ true) × (k2 ≡ k1))
        ⊎ ((os.is_not_exist l.config_path o ≡ false)
            × (lib.load (lib.yaml_file l.config_path) o k1 ≡ done k2))
    pub environment : lib.load (lib.env (bytes "LOYALTY_SYSTEM_") env_key) o k2 ≡ done k3
    pub parsed :
        flag_lib.parse (define_flags os lib flag_lib l).flags.defined (os.args o) ≡ done visited
    pub unmarshalled :
        lib.unmarshal (load_flags os lib flag_lib visited (load_standard_env os lib flag_lib o k3))
        ≡ done cfg

  load_provider-ok :
      (p : lib.Provider) (o : O) (l l' : Loader lib.Koanf)
      → load_provider os lib flag_lib p o l ≡ (ok tt, l')
      → (k : lib.Koanf) × (lib.load p o l.k ≡ done k) × (l' ≡ record l { k = k })
  load_provider-ok p o l l' h = elim (Reply-cases (lib.load p o l.k)) [
    | inl (k, e) ↦ let h' = rw (e, load_provider) at h in (k, e, cc)
    | inr (n, e) ↦ let h' = rw (e, load_provider) at h in cc
  ]

  load_yaml-ok :
      (o : O) (l l' : Loader lib.Koanf)
      → load_yaml os lib flag_lib o l ≡ (ok tt, l')
      → (k : lib.Koanf) × (((os.is_not_exist l.config_path o ≡ true) × (k ≡ l.k))
          ⊎ ((os.is_not_exist l.config_path o ≡ false)
              × (lib.load (lib.yaml_file l.config_path) o l.k ≡ done k)))
        × (l' ≡ record l { k = k })
  load_yaml-ok o l l' h = elim (Bool-cases (os.is_not_exist l.config_path o)) [
    | inl gone ↦ let h' = rw (gone, load_yaml) at h in (l.k, inl (gone, refl), cc)
    | inr there ↦
        let h' : wrapping "loadYAML" (load_provider os lib flag_lib (lib.yaml_file l.config_path) o)
              l
            ≡ (ok tt, l') =
          subst
            (λ (b : Bool).
              (if b
                then pure tt l
                else wrapping "loadYAML"
                    (load_provider os lib flag_lib (lib.yaml_file l.config_path) o) l)
              ≡ (ok tt, l'))
            there h in
        let (k, e, same) = load_provider-ok (lib.yaml_file l.config_path) o l l' (
          wrapping-ok "loadYAML" (load_provider os lib flag_lib (lib.yaml_file l.config_path) o) l
            l' tt h') in
        (k, inr (there, e), same)
  ]

  parse_flags-ok :
      (o : O) (l l' : Loader lib.Koanf)
      → parse_flags os lib flag_lib o l ≡ (ok tt, l')
      → (visited : List (Text × Text)) × (flag_lib.parse l.flags.defined (os.args o) ≡ done visited)
        × (l'.flags.visited ≡ visited)
        × (l'.k ≡ l.k)
  parse_flags-ok o l l' h = elim (Reply-cases (flag_lib.parse l.flags.defined (os.args o))) [
    | inl (visited, e) ↦
        let h' = rw (e, parse_flags) at h in
        (
          visited,
          e,
          ap (λ (r : Result Unit × Loader lib.Koanf). r.1.flags.visited) (sym h'),
          ap (λ (r : Result Unit × Loader lib.Koanf). r.1.k) (sym h'),
        )
    | inr (n, e) ↦ let h' = rw (e, parse_flags) at h in cc
  ]

  abbrev first : O → Exec (Loader lib.Koanf) (Unit {0})
  first o = wrapping "failed to load defaults" (load_defaults os lib flag_lib o)

  abbrev second : O → Exec (Loader lib.Koanf) (Unit {0})
  second o = wrapping "failed to load YAML config" (load_yaml os lib flag_lib o)

  abbrev third : O → Exec (Loader lib.Koanf) (Unit {0})
  third o = wrapping "failed to load environment variables" (load_env os lib flag_lib o)

  abbrev fourth : O → Exec (Loader lib.Koanf) (Unit {0})
  fourth o = λ l.
      pure tt
        (define_flags os lib flag_lib (record l { k = load_standard_env os lib flag_lib o l.k }))

  abbrev fifth : O → Exec (Loader lib.Koanf) (Unit {0})
  fifth o = wrapping "failed to parse flags" (parse_flags os lib flag_lib o)

  abbrev sixth : O → Exec (Loader lib.Koanf) (Unit {0})
  sixth o = λ l. pure tt (record l { k = load_flags os lib flag_lib l.flags.visited l.k })

  abbrev seventh : O → Exec (Loader lib.Koanf) Config
  seventh o = wrapping "failed to unmarshal config" (λ l. (result_of (lib.unmarshal l.k), l))

  provider_stage :
      (outer inner : String) (p : lib.Provider) (o : O) (l l' : Loader lib.Koanf)
      → wrapping outer (wrapping inner (load_provider os lib flag_lib p o)) l ≡ (ok tt, l')
      → (k : lib.Koanf) × (lib.load p o l.k ≡ done k) × (l' ≡ record l { k = k })
  provider_stage outer inner p o l l' h =
      let m = load_provider os lib flag_lib p o in
      load_provider-ok p o l l'
        (wrapping-ok inner m l l' tt (wrapping-ok outer (wrapping inner m) l l' tt h))

  flags_of : Text → List (Text × Text)
  flags_of path =
      (define_flags os lib flag_lib (record {
        k = lib.new [];
        config_path = path;
        flags = record { defined = []; visited = [] };
      })).flags.defined

  stages-Loaded :
      (o : O) (l l1 l2 l3 l4 l5 l6 l' : Loader lib.Koanf) (cfg : Config)
      → first o l ≡ (ok tt, l1)
      → second o l1 ≡ (ok tt, l2)
      → third o l2 ≡ (ok tt, l3)
      → fourth o l3 ≡ (ok tt, l4)
      → fifth o l4 ≡ (ok tt, l5)
      → sixth o l5 ≡ (ok tt, l6)
      → seventh o l6 ≡ (ok cfg, l')
      → Loaded o l cfg
  unfolding flags_of
  stages-Loaded o l l1 l2 l3 l4 l5 l6 l' cfg r1 r2 r3 r4 r5 r6 r7 =
      let (k1, e1, same1) = provider_stage _ _ (lib.structs default_config) o l l1 r1 in
      let (k2, yaml, same2) =
        load_yaml-ok o l1 l2 (wrapping-ok _ (load_yaml os lib flag_lib o) l1 l2 tt r2) in
      let (k3, e3, same3) =
        provider_stage _ _ (lib.env (bytes "LOYALTY_SYSTEM_") env_key) o l2 l3 r3 in
      let same4 : record (define_flags os lib flag_lib l3) {
        k = load_standard_env os lib flag_lib o l3.k;
      }
          ≡ l4 =
        ap (λ (r : Result Unit × Loader lib.Koanf). r.1) r4 in
      let (visited, parsed, seen, kept) =
        parse_flags-ok o l4 l5 (wrapping-ok _ (parse_flags os lib flag_lib o) l4 l5 tt r5) in
      let same6 : record l5 { k = load_flags os lib flag_lib l5.flags.visited l5.k } ≡ l6 =
        ap (λ (r : Result Unit × Loader lib.Koanf). r.1) r6 in
      let u =
        wrapping-ok _ (λ (x : Loader lib.Koanf). (result_of (lib.unmarshal x.k), x)) l6 l' cfg r7 in
      let path : l3.config_path ≡ l.config_path = rw (same3, same2, same1) refl in
      let defined : l4.flags.defined ≡ flags_of l.config_path =
        sym (ap (λ (x : Loader lib.Koanf). x.flags.defined) same4) ∙ ap flags_of path in
      let last_k : l6.k
          ≡ load_flags os lib flag_lib visited (load_standard_env os lib flag_lib o k3) =
        cc in
      record {
        k1 = k1;
        k2 = k2;
        k3 = k3;
        visited = visited;
        defaults = e1;
        yaml = rw same1 at yaml;
        environment = rw same2 at e3;
        parsed = ap (λ d. flag_lib.parse d (os.args o)) (sym defined) ∙ parsed;
        unmarshalled =
            ap lib.unmarshal (sym last_k)
            ∙ result_of-ok (lib.unmarshal l6.k) cfg
                (ap (λ (r : Result Config × Loader lib.Koanf). r.0) u);
      }

  -- A configuration that `Load` returns comes from its stages.
  pub load-Loaded :
      (o : O) (l l' : Loader lib.Koanf) (cfg : Config)
      → load os lib flag_lib o l ≡ (ok cfg, l')
      → Loaded o l cfg
  unfolding load
  load-Loaded o l l' cfg h =
      let (_, l6, h6, r7) =
        seq-ok (first o >> second o >> third o >> fourth o >> fifth o >> sixth o) (seventh o) l l'
          cfg h in
      let (_, l5, h5, r6) =
        seq-ok (first o >> second o >> third o >> fourth o >> fifth o) (sixth o) l l6 tt h6 in
      let (_, l4, h4, r5) =
        seq-ok (first o >> second o >> third o >> fourth o) (fifth o) l l5 tt h5 in
      let (_, l3, h3, r4) = seq-ok (first o >> second o >> third o) (fourth o) l l4 tt h4 in
      let (_, l2, h2, r3) = seq-ok (first o >> second o) (third o) l l3 tt h3 in
      let (_, l1, h1, r2) = seq-ok (first o) (second o) l l2 tt h2 in
      stages-Loaded o l l1 l2 l3 l4 l5 l6 l' cfg h1 r2 r3 r4 r5 r6 r7

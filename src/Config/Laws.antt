-- ===== src/Config/Laws.antt =====
-- A configuration that is loaded has every element that the program needs.
use Prim.Native.String.{String}
use ts_m2cellcpp.Prelude.{
  ℕ, ◌≤◌, ◌≡◌, refl, sym, ◌∙◌, ap, subst, ◌↔◌, List, [], ◌∷◌, none, some, ℤ, pos, negsuc, arith,
}
use ts_m2cellcpp.Config.{
  Checked, value, throws, ◌>>=◌, config_exception, Load, loaded, bad_file, bad_text, Yaml, lt_int,
  Config, in_range, get_section_key_as_int, get_section_key_as_int_in, get_control_server_port,
  get_control_server_threads, get_control_server_host, get_log_file_name, get_log_file_size_mb,
  get_log_max_files, get_telemetry_server_port, get_telemetry_server_threads,
  get_telemetry_server_host, verify_required_elements, verified, load_config, config, keep_config,
  setup, setups, get,
}

abbrev pub Has : {A : Type 0} → Checked A → Type 0
Has {A} r = (a : A) × (r ≡ value a)

-- An integer of the range.
abbrev pub Within : ℕ → ℕ → Checked ℤ → Type 0
Within min max r = (n : ℕ) × (r ≡ value (pos n)) × (min ≤ n) × (n ≤ max)

>>=-eq-value :
    {A B : Type 0} (m : Checked A) (f : A → Checked B) {b : B}
    → (m >>= f) ≡ value b
    → (a : A) × (m ≡ value a) × (f a ≡ value b)
>>=-eq-value (value a) f h = (a, refl, h)
>>=-eq-value (throws e) f h = cc

in_range-Within :
    (min max : ℕ) (v w : ℤ)
    → in_range lt_int (pos min) (pos max) v ≡ value w
    → Within min max (value w)
in_range-Within min max (pos n) w h = (n, ground (arith, h), ground (arith, h), ground (arith, h))
in_range-Within min max (negsuc n) w h = ground (arith, h)

module _ {Y V D : Type 0} (lib : Yaml Y V D) where
  get_section_key_as_int_in-Within :
      (section key : String) (min max : ℕ) (c : Config Y) (w : ℤ)
      → get_section_key_as_int_in lib section key (pos min) (pos max) c ≡ value w
      → Within min max (get_section_key_as_int_in lib section key (pos min) (pos max) c)
  unfolding get_section_key_as_int_in
  get_section_key_as_int_in-Within section key min max c w h =
      let (v, e, f) =
        >>=-eq-value (get_section_key_as_int lib section key c)
          (in_range lt_int (pos min) (pos max)) h in
      let (n, p, q, r) = in_range-Within min max v w f in (n, h ∙ p, q, r)

  -- The elements of the configuration that the program reads.
  pub record Complete (c : Config Y) : Type 0 where
    pub control_host : Has (get_control_server_host lib c)
    pub control_port : Within 1 65535 (get_control_server_port lib c)
    pub control_threads : Within 1 3000 (get_control_server_threads lib c)
    pub telemetry_host : Has (get_telemetry_server_host lib c)
    pub telemetry_port : Within 1 65535 (get_telemetry_server_port lib c)
    pub telemetry_threads : Within 1 3000 (get_telemetry_server_threads lib c)
    pub file_name : Has (get_log_file_name lib c)
    pub file_size : Has (get_log_file_size_mb lib c)
    pub max_files : Has (get_log_max_files lib c)

  verify_required_elements-Complete :
      (c : Config Y) → verify_required_elements lib c ≡ value tt → Complete c
  unfolding verify_required_elements get_control_server_port get_control_server_threads
      get_telemetry_server_port get_telemetry_server_threads
  verify_required_elements-Complete c h =
      let (host, host_is, h1) = >>=-eq-value (get_control_server_host lib c) _ h in
      let (port, port_is, h2) = >>=-eq-value (get_control_server_port lib c) _ h1 in
      let (threads, threads_is, h3) = >>=-eq-value (get_control_server_threads lib c) _ h2 in
      let (t_host, t_host_is, h4) = >>=-eq-value (get_telemetry_server_host lib c) _ h3 in
      let (t_port, t_port_is, h5) = >>=-eq-value (get_telemetry_server_port lib c) _ h4 in
      let (t_threads, t_threads_is, h6) = >>=-eq-value (get_telemetry_server_threads lib c) _ h5 in
      let (name, name_is, h7) = >>=-eq-value (get_log_file_name lib c) _ h6 in
      let (size, size_is, h8) = >>=-eq-value (get_log_file_size_mb lib c) _ h7 in
      let (files, files_is, h9) = >>=-eq-value (get_log_max_files lib c) _ h8 in
      record {
        control_host = (host, host_is);
        control_port =
            get_section_key_as_int_in-Within "ControlServer" "port" 1 65535 c port port_is;
        control_threads =
            get_section_key_as_int_in-Within "ControlServer" "threads" 1 3000 c threads threads_is;
        telemetry_host = (t_host, t_host_is);
        telemetry_port =
            get_section_key_as_int_in-Within "TelemetryServer" "port" 1 65535 c t_port t_port_is;
        telemetry_threads =
            get_section_key_as_int_in-Within "TelemetryServer" "threads" 1 3000 c t_threads
              t_threads_is;
        file_name = (name, name_is);
        file_size = (size, size_is);
        max_files = (files, files_is);
      }

  Complete-verify_required_elements :
      (c : Config Y) → Complete c → verify_required_elements lib c ≡ value tt
  unfolding verify_required_elements
  Complete-verify_required_elements c k =
      rw
        (
          k.control_host.1, k.control_port.1, k.control_threads.1, k.telemetry_host.1,
          k.telemetry_port.1, k.telemetry_threads.1, k.file_name.1, k.file_size.1, k.max_files.1,
        )
        refl

  verified-eq-value : (r c : Config Y) → verified lib r ≡ value c → (r ≡ c) × Complete r
  unfolding verified
  verified-eq-value r c h =
      let (a, e, f) = >>=-eq-value (verify_required_elements lib r) (λ _. value r) h in
      (cc f, verify_required_elements-Complete r e)

  load_config-eq-value :
      (source : String) (l : Load Y) (c : Config Y)
      → load_config lib source l ≡ value c
      → (l ≡ loaded c.yaml) × (c.source ≡ source) × Complete c
  unfolding load_config
  load_config-eq-value source bad_file c h = ground (arith, h)
  load_config-eq-value source bad_text c h = ground (arith, h)
  load_config-eq-value source (loaded y) c h =
      let r : Config Y = record { source = source; yaml = y } in
      let (e, k) = verified-eq-value r c h in
      (
        ap (λ (d : Config Y). loaded d.yaml) e,
        ap (λ (d : Config Y). d.source) (sym e),
        subst Complete e k,
      )

  Complete-load_config :
      (source : String) (c : Config Y)
      → c.source ≡ source
      → Complete c
      → load_config lib source (loaded c.yaml) ≡ value c
  unfolding load_config verified
  Complete-load_config source c e k = rw (sym e, Complete-verify_required_elements c k) refl

  -- A configuration is made exactly when its file is loaded and has every required element: the
  -- hosts, the entries of the log, ports of 1 to 65535 and 1 to 3000 threads.
  pub config_iff :
      (source : String) (c : Config Y)
      → (config lib source ≡ value c)
        ↔ (lib.load_file source ≡ loaded c.yaml) × (c.source ≡ source) × Complete c
  unfolding config
  config_iff source c = (
    load_config-eq-value source (lib.load_file source) c,
    λ (e, s, k). ap (load_config lib source) e ∙ Complete-load_config source c s k,
  )

  -- The first of the sources whose configuration is made.
  abbrev pub first_config : List String → Checked (Config Y)
  first_config [] = throws config_exception
  first_config (source ∷ sources) = elim (config lib source) [
    | value c ↦ value c
    | throws e ↦ first_config sources
  ]

  setups-some : (sources : List String) (c : Config Y) → setups lib sources (some c) ≡ some c
  unfolding setups setup
  setups-some [] c = refl
  setups-some (source ∷ sources) c = setups-some sources c

  setups-keep_config :
      (sources : List String) (r : Checked (Config Y))
      → get (setups lib sources none) ≡ first_config sources
      → get (setups lib sources (keep_config lib r))
        ≡ elim r [ value c ↦ value c | throws e ↦ first_config sources ]
  unfolding get keep_config
  setups-keep_config sources (value c) h = ap get (setups-some sources c)
  setups-keep_config sources (throws e) h = h

  -- Whatever calls of `setup` come after one another, `get` returns the configuration of the first
  -- that could be made, and throws a ConfigException if there was none.
  pub get-setups : (sources : List String) → get (setups lib sources none) ≡ first_config sources
  unfolding get setups setup
  get-setups [] = refl
  get-setups (source ∷ sources) =
      setups-keep_config sources (config lib source) (get-setups sources)

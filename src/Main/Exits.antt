-- ===== src/Main/Exits.antt =====
-- What it takes for `main` to return.
use k8s_cleaner.Common.{
  String, List, ◌≡◌, refl, sym, ◌∙◌, none, some, Outcome, ok, err, panic, ◌>>=◌, >>=-eq-ok, subst,
}
use k8s_cleaner.Common.Int.{ℤ}
use k8s_cleaner.Controller.Setup.{Instance, start_pool, initialize_client, setup_with_manager}
use k8s_cleaner.Main.{
  Flags, init_flags, flag_names, create_logger, manager_options, reconciler_of, Parsed, parsed,
  usage, Libraries, Exit, returned, exit, panicked, exit_on_error, init_scheme, serve, after_setup,
  run_manager, quit, or_panic, run_with, run_parsed, main,
}

module _ (l : Libraries) where
  open l use {
    Float32, of_nat, Scheme, parse_flags, build_logger, new_development, get_config, Mgr,
    new_manager, complete, add_healthz_check, add_readyz_check, start_manager,
  }

  -- The manager was started with its two checks, and ended without an error.
  pub record Ran (mgr : Mgr) : Type 0 where
    pub healthy : Mgr
    pub ready : Mgr
    pub health : add_healthz_check mgr "healthz" ≡ ok healthy
    pub readiness : add_readyz_check healthy "readyz" ≡ ok ready
    pub stopped : start_manager ready ≡ ok tt

  -- Every step of the program succeeded, with the flags that the arguments give.
  pub record Served (arguments : List String) (pool : Instance) : Type 0 where
    pub scheme : Scheme
    pub flags : Flags Float32
    pub mgr : Mgr
    pub registered : init_scheme l ≡ ok scheme
    pub given : parse_flags flag_names (init_flags of_nat) arguments ≡ parsed flags
    pub logging : build_logger create_logger ≡ ok tt
    pub configured : get_config ≡ ok tt
    pub managed : new_manager scheme (manager_options flags) ≡ ok mgr
    pub controlled : complete mgr (reconciler_of flags) ≡ ok tt
    pub working : new_development ≡ ok tt
    pub started : pool ≡ some (start_pool flags.workers)
    pub ran : Ran mgr

  exit_on_error-returned : (o : Outcome (Unit {0})) → exit_on_error o ≡ returned → o ≡ ok tt
  unfolding exit_on_error
  exit_on_error-returned (ok tt) h = refl
  exit_on_error-returned (err e) h = absurd (cc h)
  exit_on_error-returned panic h = absurd (cc h)

  serve-returned : (mgr : Mgr) → serve l mgr ≡ returned → Ran mgr
  unfolding serve
  serve-returned mgr h =
      let all =
        exit_on_error-returned
          (add_healthz_check mgr "healthz" >>= λ healthy.
            add_readyz_check healthy "readyz" >>= λ ready. start_manager ready)
          h in
      let (healthy, p, rest) = >>=-eq-ok (add_healthz_check mgr "healthz") _ all in
      let (ready, q, stopped) = >>=-eq-ok (add_readyz_check healthy "readyz") _ rest in
      record { healthy = healthy; ready = ready; health = p; readiness = q; stopped = stopped }

  after_setup-returned :
      (mgr : Mgr) (p : Outcome (Unit {0}) × Instance)
      → (after_setup l mgr p).0 ≡ returned
      → (p.0 ≡ ok tt) × Ran mgr × ((after_setup l mgr p).1 ≡ p.1)
  unfolding after_setup
  after_setup-returned mgr (ok tt, i) h = (refl, serve-returned mgr h, refl)
  after_setup-returned mgr (err e, i) h = absurd (cc h)
  after_setup-returned mgr (panic, i) h = absurd (cc h)

  setup-ok :
      (logger controlled : Outcome (Unit {0})) (workers : ℤ)
      → (setup_with_manager logger controlled workers none).0 ≡ ok tt
      → (logger ≡ ok tt)
        × (controlled ≡ ok tt)
        × ((setup_with_manager logger controlled workers none).1 ≡ some (start_pool workers))
  unfolding setup_with_manager initialize_client
  setup-ok (ok tt) controlled workers h = (refl, h, refl)
  setup-ok (err e) controlled workers h = absurd (cc h)
  setup-ok panic controlled workers h = absurd (cc h)

  quit-returned :
      (o : Outcome (Unit {0})) (i : Instance) (rest : Instance → Exit × Instance)
      → (quit l o i rest).0 ≡ returned
      → (o ≡ ok tt) × ((rest i).0 ≡ returned) × ((quit l o i rest).1 ≡ (rest i).1)
  quit-returned (ok tt) i rest h = (refl, h, refl)
  quit-returned (err e) i rest h = absurd (cc h)
  quit-returned panic i rest h = absurd (cc h)

  or_panic-ok : (o : Outcome (Unit {0})) → or_panic l o ≡ ok tt → o ≡ ok tt
  or_panic-ok (ok tt) h = refl
  or_panic-ok (err e) h = absurd (cc h)
  or_panic-ok panic h = absurd (cc h)

  -- What is known of the controller manager when `run_manager` returns.
  record Managed (f : Flags Float32) (made : Outcome Mgr) (pool : Instance) : Type 0 where
    mgr : Mgr
    managed : made ≡ ok mgr
    controlled : complete mgr (reconciler_of f) ≡ ok tt
    working : new_development ≡ ok tt
    started : pool ≡ some (start_pool f.workers)
    ran : Ran mgr

  run_manager-returned :
      (f : Flags Float32) (made : Outcome Mgr)
      → (run_manager l f made none).0 ≡ returned
      → Managed f made (run_manager l f made none).1
  unfolding run_manager
  run_manager-returned f (err e) h = absurd (cc h)
  run_manager-returned f panic h = absurd (cc h)
  run_manager-returned f (ok mgr) h =
      let set_up =
        setup_with_manager new_development (complete mgr (reconciler_of f)) f.workers none in
      let (fine, ran, left) = after_setup-returned mgr set_up h in
      let (working, controlled, started) =
        setup-ok new_development (complete mgr (reconciler_of f)) f.workers fine in
      record {
        mgr = mgr;
        managed = refl;
        controlled = controlled;
        working = working;
        started = left ∙ started;
        ran = ran;
      }

  run_with-returned :
      (f : Flags Float32) (scheme : Scheme)
      → (run_with l f scheme none).0 ≡ returned
      → (build_logger create_logger ≡ ok tt)
        × (get_config ≡ ok tt)
        × Managed f (new_manager scheme (manager_options f)) (run_with l f scheme none).1
  unfolding run_with
  run_with-returned f scheme h =
      let (logging, h', left) = quit-returned _ none _ h in
      let (configured, h'', left') = quit-returned _ none _ h' in
      (
        or_panic-ok _ logging,
        configured,
        subst (Managed f (new_manager scheme (manager_options f))) (sym (left ∙ left'))
            (run_manager-returned f (new_manager scheme (manager_options f)) h''),
      )

  run_parsed-returned :
      (arguments : List String) (scheme : Scheme) (p : Parsed Float32)
      → init_scheme l ≡ ok scheme
      → parse_flags flag_names (init_flags of_nat) arguments ≡ p
      → (run_parsed l scheme p).0 ≡ returned
      → Served arguments (run_parsed l scheme p).1
  unfolding run_parsed
  run_parsed-returned arguments scheme (usage n) r g h = absurd (cc h)
  run_parsed-returned arguments scheme (parsed f) r g h =
      let (logging, configured, m) = run_with-returned f scheme h in
      record {
        scheme = scheme;
        flags = f;
        mgr = m.mgr;
        registered = r;
        given = g;
        logging = logging;
        configured = configured;
        managed = m.managed;
        controlled = m.controlled;
        working = m.working;
        started = m.started;
        ran = m.ran;
      }

  -- If `main` returns, then the arguments gave flags, the scheme, the logger, the configuration and the
  -- manager could be made, the pool was started with as many workers as the flags say, the controller
  -- was made with the reconciler of the flags, both checks were added, and the manager ran until it
  -- ended without an error.
  pub main_returns :
      (arguments : List String)
      → (main l arguments).0 ≡ returned
      → Served arguments (main l arguments).1
  unfolding main
  main_returns arguments h = go (init_scheme l) refl h
    where
      after : Outcome Scheme → Exit × Instance
      after o = elim o [
        | ok scheme ↦ run_parsed l scheme (parse_flags flag_names (init_flags of_nat) arguments)
        | err e ↦ (exit 1, none)
        | panic ↦ (panicked, none)
      ]

      go :
          (o : Outcome Scheme)
          → init_scheme l ≡ o
          → (after o).0 ≡ returned
          → Served arguments (after o).1
      go (ok scheme) r k = run_parsed-returned arguments scheme _ r refl k
      go (err e) r k = absurd (cc k)
      go panic r k = absurd (cc k)

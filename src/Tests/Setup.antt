-- ===== src/Tests/Setup.antt =====
-- The program with libraries of which each call succeeds.
use k8s_cleaner.Common.{ℕ, [], ◌≡◌, refl, some, ok}
use k8s_cleaner.Common.Int.{pos}
use k8s_cleaner.Controller.Setup.{start_pool}
use k8s_cleaner.Main.{parsed, usage, Libraries, returned, main}
use k8s_cleaner.Main.Exits.{Served, main_returns}

abbrev quiet : Libraries
quiet = record {
  Float32 = ℕ;
  of_nat = λ n. n;
  Scheme = ℕ;
  new_scheme = 0;
  add_client_go = λ s. ok 1;
  add_api = λ s. ok 2;
  parse_flags = λ names f arguments. elim arguments [ [] ↦ parsed f | _ ↦ usage 2 ];
  build_logger = λ c. ok tt;
  new_development = ok tt;
  get_config = ok tt;
  Mgr = Unit;
  new_manager = λ s o. ok tt;
  complete = λ mgr r. ok tt;
  add_healthz_check = λ mgr name. ok mgr;
  add_readyz_check = λ mgr name. ok mgr;
  start_manager = λ mgr. ok tt;
}

-- Without arguments there are five workers.
five_workers : main quiet [] ≡ (returned, some (start_pool (pos 5)))
unfolding main
five_workers = refl

main_returns_example : Served quiet [] (main quiet []).1
unfolding main
main_returns_example = main_returns quiet [] refl

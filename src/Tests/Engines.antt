-- ===== src/Tests/Engines.antt =====
-- src/common/engines.c at concrete inputs.
use gnugol.Base.{true, ℕ, suc, ◌≡◌, refl, codes, take, ok, fault, overrun, some, none, arith, ◌⊎◌}
use gnugol.Engines.Key.Trim.{KeyIn, Trailing, gnugol_read_key-trim, gnugol_read_key_overrun}
use gnugol.Engines.Key.{Environment, opened, found, failed, no_data, gnugol_read_key}
use gnugol.Engines.Held.{Held, load_held, gnugol_engine_unload, gnugol_engine_unload-load_held}
use gnugol.Engines.Load.{Loader, gnugol_engine_load, Engine}

abbrev home : Environment
home = record {
  home = some (codes "/home/me");
  file = λ path. opened (codes "key \n");
  sysconfdir = codes "/etc/gnugol";
}

gnugol_read_key-trim_example :
    ((gnugol_read_key home (suc 31) (codes "bingkey") ≡ ok (failed no_data))
      × Trailing (codes "key \n") 0 5)
    ⊎ ((m : ℕ) × (gnugol_read_key home (suc 31) (codes "bingkey")
          ≡ ok (found (take (suc m) (codes "key \n"))))
        × KeyIn (codes "key \n") m)
gnugol_read_key-trim_example =
    gnugol_read_key-trim home 31 (codes "bingkey") (codes "key \n") refl (omega arith)

full_file_overrun : gnugol_read_key home (suc 1) (codes "bingkey") ≡ fault overrun
full_file_overrun =
    gnugol_read_key_overrun home 1 (codes "bingkey") (codes "key \n") refl (omega arith) refl

abbrev loader : Loader
loader = record {
  malloc = true;
  dlopen = λ path. some (record { setup = none; search = none; description = none });
  strdup = λ name. some name;
  shared_lib_dir = codes "/var/lib/gnugol/";
  so_ext = codes "so";
}

abbrev nothing : Held
nothing = record { blocks = 0; libraries = 0 }

gnugol_engine_unload-load_held_example :
    (after : Held) × (load_held loader (codes "duck") nothing
      ≡ ok (gnugol_engine_load loader (codes "duck"), after))
    × (((gnugol_engine_load loader (codes "duck") ≡ none) × (after ≡ nothing))
        ⊎ ((engine : Engine) × (gnugol_engine_load loader (codes "duck") ≡ some engine)
            × (gnugol_engine_unload engine after ≡ ok nothing)))
gnugol_engine_unload-load_held_example =
    gnugol_engine_unload-load_held loader (codes "duck") nothing

-- ===== src/Examples/Sampling.antt =====
-- src/hash_ss on a driver with no GPU, which builds what is not empty.
use pmem_rts_cache.Common.{ℕ, ◌≢◌, refl, ◌≡◌, true, some, List, [], ◌∷◌}
use pmem_rts_cache.Sampling.{
  ClResult, device_not_found, other_error, success, DeviceType, gpu, cpu, Leaves, OpenCl, Files,
  untold, buffered, build_program, Builds, build_program_lem,
}

abbrev device_of : DeviceType → ClResult ℕ
device_of gpu = device_not_found
device_of cpu = success 1

abbrev not_empty : List ℕ → ClResult (Unit {0})
not_empty [] = other_error
not_empty (c ∷ cs) = success tt

abbrev driver : OpenCl
driver = record {
  Platform = Unit {0};
  Device = ℕ;
  Context = Unit {0};
  Program = List ℕ;
  get_platform = success tt;
  get_device = λ platform type. device_of type;
  create_program = λ context source. success source;
  build = not_empty;
  log = λ program device. some (69 ∷ []);
}

abbrev one_file : Files
one_file filename = some (buffered (97 ∷ []))

told : one_file (98 ∷ []) ≢ some untold
told e = cc

build_program_lem_example :
    (r : Leaves (List ℕ)) × (build_program driver one_file true true tt 1 (98 ∷ []) ≡ some r)
    × Builds driver one_file tt (98 ∷ []) r
build_program_lem_example =
    build_program_lem driver one_file tt 1 (98 ∷ []) (λ p. (69 ∷ [], refl)) told

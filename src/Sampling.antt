-- ===== src/Sampling.antt =====
-- src/hash_ss/cl_context.c and src/hash_ss/sampling.cl: the OpenCL device, its program, and the kernel.
-- OpenCL and the file system are parameters. `none` is undefined behaviour, and what is printed is left
-- out but for the log of a build.
use pmem_rts_cache.Common.{
  ℕ, ◌≡◌, ◌≢◌, refl, sym, ◌∙◌, Bool, true, false, Option, none, some, List, [], ◌∷◌, ◌++◌,
  if◌then◌else◌, ◌>>=◌, ◌==◌, get_elem?, set, Bool-cases, inl, inr, ltb,
}

-- The result of a call: a negative `err`, CL_DEVICE_NOT_FOUND among them, or success.
pub data ClResult (A : Type 0) : Type 0 where
  device_not_found other_error : ClResult A
  success : A → ClResult A

pub data DeviceType : Type 0 where
  gpu cpu : DeviceType

-- What a function does: it returns, or ends the process with `exit(1)` after it has printed a text.
pub data Leaves (A : Type 0) : Type 0 where
  returned : A → Leaves A
  exited : List ℕ → Leaves A

-- The calls of OpenCL. A log is the octets of its characters, and its size counts the terminator; it is
-- `none` where one of the two calls of clGetProgramBuildInfo fails.
pub record OpenCl : Type 1 where
  pub Platform : Type 0
  pub Device : Type 0
  pub Context : Type 0
  pub Program : Type 0
  pub get_platform : ClResult Platform
  pub get_device : Platform → DeviceType → ClResult Device
  pub create_program : Context → List ℕ → ClResult Program
  pub build : Program → ClResult (Unit {0})
  pub log : Program → Device → Option (List ℕ)

module _ (cl : OpenCl) where
  -- The second call, on what the first one gave.
  abbrev pub or_cpu : cl.Platform → ClResult cl.Device → ClResult cl.Device
  or_cpu platform device_not_found = cl.get_device platform cpu
  or_cpu platform other_error = other_error
  or_cpu platform (success device) = success device

  abbrev pub or_exit : {A : Type 0} → ClResult A → Leaves A
  or_exit device_not_found = exited []
  or_exit other_error = exited []
  or_exit (success a) = returned a

  unfoldable pub create_device : Leaves cl.Device
  create_device = elim cl.get_platform [
    | device_not_found ↦ exited []
    | other_error ↦ exited []
    | success platform ↦ or_exit (or_cpu platform (cl.get_device platform gpu))
  ]

-- What `printf` with "%s" prints of an array: the octets in front of the first zero. `none` is an array
-- without one.
unfoldable pub c_string : List ℕ → Option (List ℕ)
c_string [] = none
c_string (c ∷ cs) = elim (c == 0) [
  | true ↦ some []
  | false ↦ do rest ← c_string cs; some (c ∷ rest)
]

-- A file that opens: `ftell` gives -1, or the size of a buffer, which has some octets after `fread`. A short
-- read leaves the last of them as `malloc` gave them.
pub data Opened : Type 0 where
  untold : Opened
  buffered : List ℕ → Opened

-- The files of the process.
abbrev pub Files : Type 0
Files = List ℕ → Option Opened

module _ (cl : OpenCl) where
  -- The end of `build_program`: the log of a failed build goes to an array with two terminators. Where its
  -- size is not given, `log_size` has not been written to.
  unfoldable pub print_log : Bool → cl.Program → cl.Device → Option (Leaves cl.Program)
  unfolding c_string
  print_log mallocs program device =
      if mallocs
      then (do
        log ← cl.log program device
        text ← c_string (log ++ (0 ∷ 0 ∷ []))
        some (exited text))
      else none

  -- What follows clBuildProgram, on its result.
  unfoldable pub after_build :
      Bool → cl.Program → cl.Device → ClResult (Unit {0}) → Option (Leaves cl.Program)
  unfolding print_log
  after_build mallocs program device (success _) = some (returned program)
  after_build mallocs program device device_not_found = print_log mallocs program device
  after_build mallocs program device other_error = print_log mallocs program device

  -- What follows clCreateProgramWithSource, on its result.
  unfoldable pub after_create : Bool → cl.Device → ClResult cl.Program → Option (Leaves cl.Program)
  unfolding after_build
  after_create mallocs device (success program) =
      after_build mallocs program device (cl.build program)
  after_create mallocs device device_not_found = some (exited [])
  after_create mallocs device other_error = some (exited [])

  -- `build_program`, where the two arguments say whether the two calls of `malloc` succeed; a failed one
  -- is written through. The source is the octets of the buffer, without the terminator that is added,
  -- which goes to SIZE_MAX where `ftell` gives -1.
  unfoldable pub build_program :
      Files → Bool → Bool → cl.Context → cl.Device → List ℕ → Option (Leaves cl.Program)
  unfolding after_create
  build_program files buffer_mallocs log_mallocs context device filename = elim (files filename) [
    | none ↦ some (exited [])
    | some file ↦ elim file [
      | untold ↦ none
      | buffered source ↦
          if buffer_mallocs
          then after_create log_mallocs device (cl.create_program context source)
          else none
    ]
  ]

-- The kernel of src/hash_ss/sampling.cl for the work item `i`; `times` is the product of two floats, and
-- `i` and `n` are not negative.
unfoldable pub square : {F : Type 0} → (F → F → F) → List F → List F → ℕ → ℕ → Option (List F)
square times input output n i =
    if ltb i n
    then (do x ← get_elem? input i; old ← get_elem? output i; some (set output i (times x x)))
    else some output

not_success : {A : Type 0} {a : A} → device_not_found ≢ success a
not_success e = cc

no_success : {A : Type 0} {a : A} → other_error ≢ success a
no_success e = cc

module _ (cl : OpenCl) where
  c_string-terminated :
      (log : List ℕ) → (text : List ℕ) × (c_string (log ++ (0 ∷ 0 ∷ [])) ≡ some text)
  unfolding c_string
  c_string-terminated [] = ([], refl)
  c_string-terminated (c ∷ cs) =
      let (text, e) = c_string-terminated cs in
      elim (Bool-cases (c == 0)) [
        | inl here ↦ ([], rw (c_string, here) refl)
        | inr further ↦ (c ∷ text, rw (c_string, further, e) refl)
      ]

  -- What the outcomes of `build_program` mean.
  pub data Builds (files : Files) (context : cl.Context) (filename : List ℕ)
      : Leaves cl.Program → Type 0 where
    no_file : files filename ≡ none → Builds files context filename (exited [])
    refused :
        (source : List ℕ)
        → files filename ≡ some (buffered source)
        → ((p : cl.Program) → cl.create_program context source ≢ success p)
        → Builds files context filename (exited [])
    failed :
        (source : List ℕ) (p : cl.Program) (text : List ℕ)
        → files filename ≡ some (buffered source)
        → cl.create_program context source ≡ success p
        → cl.build p ≢ success tt
        → Builds files context filename (exited text)
    built :
        (source : List ℕ) (p : cl.Program)
        → files filename ≡ some (buffered source)
        → cl.create_program context source ≡ success p
        → cl.build p ≡ success tt
        → Builds files context filename (returned p)

  module _ (files : Files) (context : cl.Context) (device : cl.Device) (filename : List ℕ)
      (logs : (p : cl.Program) → (log : List ℕ) × (cl.log p device ≡ some log)) where
    after_build-Builds :
        (source : List ℕ) (p : cl.Program)
        → files filename ≡ some (buffered source)
        → cl.create_program context source ≡ success p
        → (b : ClResult (Unit {0})) → cl.build p ≡ b
        → (r : Leaves cl.Program) × (after_build cl true p device b ≡ some r)
          × Builds files context filename r
    unfolding after_build print_log
    after_build-Builds source p opens creates (success tt) e =
        (returned p, refl, built source p opens creates e)
    after_build-Builds source p opens creates device_not_found e =
        let (log, given) = logs p in
        let (text, prints) = c_string-terminated log in
        (
          exited text,
          rw (given, ◌>>=◌, prints) refl,
          failed source p text opens creates (λ q. not_success (sym e ∙ q)),
        )
    after_build-Builds source p opens creates other_error e =
        let (log, given) = logs p in
        let (text, prints) = c_string-terminated log in
        (
          exited text,
          rw (given, ◌>>=◌, prints) refl,
          failed source p text opens creates (λ q. no_success (sym e ∙ q)),
        )

    after_create-Builds :
        (source : List ℕ)
        → files filename ≡ some (buffered source)
        → (o : ClResult cl.Program) → cl.create_program context source ≡ o
        → (r : Leaves cl.Program) × (after_create cl true device o ≡ some r)
          × Builds files context filename r
    unfolding after_create
    after_create-Builds source opens (success p) e =
        after_build-Builds source p opens e (cl.build p) refl
    after_create-Builds source opens device_not_found e =
        (exited [], refl, refused source opens (λ p q. not_success (sym e ∙ q)))
    after_create-Builds source opens other_error e =
        (exited [], refl, refused source opens (λ p q. no_success (sym e ∙ q)))

    -- With memory, a file whose size `ftell` can tell, and a driver that gives the log of a build,
    -- `build_program` returns or ends the process, and is not undefined behaviour. It returns a program
    -- only if that was made of the octets that the buffer has after `fread`, and built; else the file does
    -- not open, the program is refused, or its build failed.
    pub build_program_lem :
        files filename ≢ some untold
        → (r : Leaves cl.Program) × (build_program cl files true true context device filename
            ≡ some r)
          × Builds files context filename r
    unfolding build_program
    build_program_lem told = on_file (files filename) refl
      where
        on_file :
            (o : Option Opened)
            → files filename ≡ o
            → (r : Leaves cl.Program) × ((elim o [
              | none ↦ some (exited [])
              | some file ↦ elim file [
                | untold ↦ none
                | buffered source ↦ after_create cl true device (cl.create_program context source)
              ]
            ])
                ≡ some r)
              × Builds files context filename r
        on_file none e = (exited [], refl, no_file e)
        on_file (some untold) e = absurd (told e)
        on_file (some (buffered source)) e =
            after_create-Builds source e (cl.create_program context source) refl

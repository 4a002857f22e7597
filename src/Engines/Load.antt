-- ===== src/Engines/Load.antt =====
-- `gnugol_engine_load` and `gnugol_engine_query` of src/common/engines.c.
use gnugol.Base.{
  ◌-◌, Bool, Option, none, some, [], ◌∷◌, ◌++◌, if◌then◌else◌, ℤ, pos, is_neg, Bytes, codes, take,
  Result, ok, fault, bad_read, ◌>>=◌,
}
use gnugol.Clib.Printf.{str}
use gnugol.Format.Buffers.{outw}
use gnugol.Query.{QueryOptions}

-- `int (*)(QueryOptions_t *)`: the result, and what the options hold afterwards.
abbrev pub Hook : Type 0
Hook = QueryOptions → Result (ℤ × QueryOptions)

-- What `dlsym` finds in a shared object.
pub record Library : Type 0 where
  pub setup : Option Hook
  pub search : Option Hook
  pub description : Option Bytes

-- `struct ggengine`, without its list node and its handle.
pub record Engine : Type 0 where
  pub name : Option Bytes
  pub description : Bytes
  pub setup : Hook
  pub search : Hook

-- What the loader calls: `malloc`, `dlopen` and `strdup`, and the directory and the suffix that the
-- build names.
pub record Loader : Type 0 where
  pub malloc : Bool
  pub dlopen : Bytes → Option Library
  pub strdup : Bytes → Option Bytes
  pub shared_lib_dir : Bytes
  pub so_ext : Bytes

abbrev pub gnugol_default_setup : Hook
gnugol_default_setup query = ok (pos 0, query)

abbrev pub gnugol_default_search : Hook
gnugol_default_search query = ok (pos 0, query)

abbrev or_else {ℓ} : {A : Type ℓ} → A → Option A → A
or_else a none = a
or_else a (some b) = b

-- `libname`, cut at `FILENAME_MAX`, which is 4096.
abbrev pub libname : Loader → Bytes → Bytes
libname load name = take (4096 - 1) (load.shared_lib_dir ++ name ++ b'.' ∷ load.so_ext)

abbrev pub engine_of : Loader → Bytes → Library → Engine
engine_of load name lib = record {
  name = load.strdup name;
  description = or_else (codes "There is no description") lib.description;
  setup = or_else gnugol_default_setup lib.setup;
  search = or_else gnugol_default_search lib.search;
}

-- `gnugol_engine_load(name)`, of a name that is not `NULL`.
unfoldable pub gnugol_engine_load : Loader → Bytes → Option Engine
gnugol_engine_load load name =
    if load.malloc
    then (elim (load.dlopen (libname load name)) [
      | none ↦ none
      | some lib ↦ some (engine_of load name lib)
    ])
    else none

-- What a failed setup leaves.
abbrev went_boom : Engine → ℤ → QueryOptions → Result (ℤ × QueryOptions)
went_boom engine rc query = elim engine.name [
  | none ↦ fault bad_read
  | some name ↦ (do
    warned ← outw query (codes "%s: Went boom on setup\n") (str name ∷ [])
    ok (rc, warned))
]

-- `gnugol_engine_query(engine,query)`
unfoldable pub gnugol_engine_query : Engine → QueryOptions → Result (ℤ × QueryOptions)
gnugol_engine_query engine query = do
  (rc, ready) ← engine.setup query
  if is_neg rc then went_boom engine rc ready else engine.search ready

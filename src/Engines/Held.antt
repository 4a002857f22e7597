-- ===== src/Engines/Held.antt =====
-- `gnugol_engine_load` and `gnugol_engine_unload` of src/common/engines.c, with what they hold of
-- the memory and of the loader.
use gnugol.Base.{
  ℕ, zero, suc, ◌≡◌, refl, Option, none, some, ◌⊎◌, inl, inr, if◌then◌else◌, Bytes, Result, ok,
  fault, underrun, ◌>>=◌, Bool-cases, Option-cases,
}
use gnugol.Engines.Load.{Engine, Loader, Library, libname, engine_of, gnugol_engine_load}

-- How many blocks of memory and how many libraries are held.
pub record Held : Type 0 where
  pub blocks : ℕ
  pub libraries : ℕ

-- `malloc` that succeeds, `strdup` with what it returns, and `dlopen` that succeeds.
abbrev malloced : Held → Held
malloced h = record h { blocks = suc h.blocks }

abbrev strduped : Option Bytes → Held → Held
strduped none h = h
strduped (some name) h = malloced h

abbrev dlopened : Held → Held
dlopened h = record h { libraries = suc h.libraries }

-- `free` and `dlclose` of something that is held; without it they are a fault.
unfoldable pub free_block : Held → ℕ → Result Held
free_block h zero = fault underrun
free_block h (suc blocks) = ok (record h { blocks = blocks })

unfoldable pub dlclosed : Held → ℕ → Result Held
dlclosed h zero = fault underrun
dlclosed h (suc libraries) = ok (record h { libraries = libraries })

-- `free(engine->name)`, which may be `NULL`.
unfoldable pub freed_name : Option Bytes → Held → Result Held
unfolding free_block
freed_name none h = ok h
freed_name (some name) h = free_block h h.blocks

-- `gnugol_engine_load`: what it returns, and what is held afterwards.
unfoldable pub load_held : Loader → Bytes → Held → Result (Option Engine × Held)
unfolding free_block
load_held load name h =
    if load.malloc
    then (elim (load.dlopen (libname load name)) [
      | none ↦ (do left ← free_block (malloced h) (malloced h).blocks; ok (none, left))
      | some lib ↦
          let opened = dlopened (malloced h) in
          ok (some (engine_of load name lib), strduped (load.strdup name) opened)
    ])
    else ok (none, h)

unfoldable pub gnugol_engine_unload : Engine → Held → Result Held
unfolding freed_name free_block dlclosed
gnugol_engine_unload engine h = do
  unnamed ← freed_name engine.name h
  closed ← dlclosed unnamed unnamed.libraries
  free_block closed closed.blocks

unload-engine_of :
    (load : Loader) (name : Bytes) (lib : Library) (h : Held)
    → gnugol_engine_unload
        (engine_of load name lib)
        (strduped (load.strdup name) (dlopened (malloced h)))
      ≡ ok h
unfolding gnugol_engine_unload freed_name free_block dlclosed
unload-engine_of load name lib h = elim (Option-cases (load.strdup name)) [
  | inl missing ↦ rw missing refl
  | inr (copy, there) ↦ rw there refl
]

-- Whatever `malloc`, `dlopen` and `strdup` give, the engine is the one that `gnugol_engine_load`
-- is modelled to return, a load that fails leaves held what was held before, and an engine that is
-- loaded and then unloaded does so too, and nothing is free_block that is not held.
pub gnugol_engine_unload-load_held :
    (load : Loader) (name : Bytes) (h : Held)
    → (after : Held) × (load_held load name h ≡ ok (gnugol_engine_load load name, after))
      × (((gnugol_engine_load load name ≡ none) × (after ≡ h))
          ⊎ ((engine : Engine) × (gnugol_engine_load load name ≡ some engine)
              × (gnugol_engine_unload engine after ≡ ok h)))
unfolding load_held gnugol_engine_load free_block
gnugol_engine_unload-load_held load name h = elim (Bool-cases load.malloc) [
  | inr refused ↦ rw refused (h, refl, inl (refl, refl))
  | inl enough ↦ rw enough (elim (Option-cases (load.dlopen (libname load name))) [
    | inl missing ↦ rw missing (h, refl, inl (refl, refl))
    | inr (lib, found) ↦ rw found (
      strduped (load.strdup name) (dlopened (malloced h)),
      refl,
      inr (engine_of load name lib, refl, unload-engine_of load name lib h),
    )
  ])
]

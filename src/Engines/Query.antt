-- ===== src/Engines/Query.antt =====
-- What `gnugol_engine_query` does, whatever the plugin holds.
use gnugol.Base.{
  ◌≡◌, refl, true, none, some, ◌++◌, ℤ, pos, is_neg, Bytes, codes, ok, ◌>>=◌, >>=-assoc,
}
use gnugol.Engines.Load.{
  Library, Engine, Loader, gnugol_engine_load, gnugol_engine_query, libname, engine_of,
}
use gnugol.Clib.Printf.{sprintf, fill}
use gnugol.Format.Buffers.{append, outw}
use gnugol.Query.{QueryOptions}

-- Where the setup of an engine with a name returns a negative number, the search is not called: the
-- result is that number, and `<name>: Went boom on setup` is appended to `wrn`.
gnugol_engine_query_boom :
    (engine : Engine) (query ready : QueryOptions) (rc : ℤ) (name : Bytes)
    → engine.name ≡ some name
    → engine.setup query ≡ ok (rc, ready)
    → is_neg rc ≡ true
    → gnugol_engine_query engine query ≡ (
        append ready.wrn (name ++ codes ": Went boom on setup\n") >>= λ b.
        ok (rc, record ready { wrn = b }))
unfolding gnugol_engine_query outw sprintf fill
gnugol_engine_query_boom engine query ready rc name named setup boom =
    rw (setup, boom, named)
      (>>=-assoc (append ready.wrn (name ++ codes ": Went boom on setup\n"))
        (λ b. ok (record ready { wrn = b })) (λ warned. ok (rc, warned)))

-- Where an object without a `setup` and a `search` of its own is loaded, a query succeeds and leaves
-- the options as they are.
gnugol_engine_query-gnugol_engine_load :
    (load : Loader) (lib : Library) (name : Bytes) (query : QueryOptions)
    → load.malloc ≡ true
    → load.dlopen (libname load name) ≡ some lib
    → lib.setup ≡ none
    → lib.search ≡ none
    → (engine : Engine) × (gnugol_engine_load load name ≡ some engine)
      × (gnugol_engine_query engine query ≡ ok (pos 0, query))
unfolding gnugol_engine_load gnugol_engine_query
gnugol_engine_query-gnugol_engine_load load lib name query room opens no_setup no_search =
    (engine_of load name lib, rw (room, opens) refl, rw (no_setup, no_search) refl)

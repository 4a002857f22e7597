-- ===== src/Client/Main.antt =====
-- `main` of src/clients/gnugol.c.
use gnugol.Base.{
  ◌&&◌, not, ℕ, ◌||◌, Option, none, some, List, [], ◌∷◌, ◌++◌, ltb, if◌then◌else◌, ℤ, is_neg, above,
  Bytes, codes, length, take, until_nul, Result, ok, fault, bad_read, assertion, ◌>>=◌,
}
use gnugol.Client.Environ.{process_environ, sets_charset}
use gnugol.Client.Options.{Flag, Client, process_options, gnugol_default_QueryOptions}
use gnugol.Client.Setup.{Iconv, failed, ready, finish_setup}
use gnugol.Clib.Printf.{str, num, sprintf}
use gnugol.Engines.Load.{Engine, Loader, gnugol_engine_query}
use gnugol.Format.Options.{Memory, gnugol_init_QueryOptions}
use gnugol.Query.{Buffer, QueryOptions}

-- What `main` calls: `getopt_long`, as the options that it finds and the arguments that it leaves,
-- `iconv` with `icout`, and what `getenv` and `malloc` return.
pub record World : Type 0 where
  pub load : Loader
  pub iconv : Iconv
  pub options : List Bytes → List Flag
  pub operands : List Bytes → List Bytes
  pub convert_out : Bytes → Bytes → Option Bytes
  pub lang : Option Bytes
  pub gnugol_opts : Option Bytes
  pub memory : Memory

-- What is written to the two streams.
pub record Streams : Type 0 where
  pub stdout : Bytes
  pub stderr : Bytes

-- The bytes that a buffer's `s` reads as for `%s`.
abbrev text_of : Buffer → Result Bytes
text_of b = elim b.s [ none ↦ fault bad_read | some content ↦ ok (until_nul content) ]

-- The `len` bytes that `iconv` reads of a buffer.
abbrev counted_of : Buffer → Result Bytes
counted_of b = elim b.s [
  | none ↦ fault bad_read
  | some content ↦ if ltb (length content) b.len then fault bad_read else ok (take b.len content)
]

-- `printf` of what `iconv` made of the buffer, or `none` where it fails.
abbrev converted_out : Option Bytes → Result (Option Bytes)
converted_out none = ok none
converted_out (some []) = fault assertion
converted_out (some (c ∷ cs)) = ok (some (until_nul (c ∷ cs)))

abbrev in_charset : World → Buffer → Option Bytes → Result (Option Bytes)
in_charset w out none = text_of out >>= λ text. ok (some text)
in_charset w out (some charset) =
    counted_of out >>= λ text. converted_out (w.convert_out charset text)

-- `if(q.returned_results > 0) …`: what is printed, or `none` for `EXIT_FAILURE`.
unfoldable pub print_results : World → QueryOptions → Result (Option Bytes)
print_results w q = if ltb 0 q.returned_results then in_charset w q.out q.charset else ok (some [])

abbrev print_buffer : Bytes → Buffer → Result Bytes
print_buffer format b = do text ← text_of b; sprintf format (num b.len ∷ num b.size ∷ str text ∷ [])

abbrev print_failure : QueryOptions → Result Bytes
print_failure q = do
  errors ← text_of q.err
  warnings ← text_of q.wrn
  sprintf (codes "Errors: %s\nWarnings:%s\n") (str errors ∷ str warnings ∷ [])

abbrev print_debug : QueryOptions → Result Bytes
print_debug q = do
  out ← print_buffer (codes "out len = %d\n size = %d, Contents = %s\n") q.out
  wrn ← print_buffer (codes "wrn len = %d\n size = %d, Contents = %s\n") q.wrn
  err ← print_buffer (codes "err len = %d\n size = %d, Contents  = %s\n") q.err
  ok (out ++ wrn ++ err)

-- The two reports to `stderr` behind a query.
unfoldable pub print_errors : ℤ → QueryOptions → Result Bytes
print_errors result q = do
  failure ← (if is_neg result || above q.debug 5 then print_failure q else ok [])
  debug ← (if above q.debug 10 then print_debug q else ok [])
  ok (failure ++ debug)

abbrev left_in : Buffer → Buffer → Buffer
left_in b used = record b { s = used.s }

-- `q = master` copies the pointers of the buffers: the next query finds what the last one wrote.
unfoldable pub carried : QueryOptions → QueryOptions → QueryOptions
carried master q = record master {
  out = left_in master.out q.out;
  err = left_in master.err q.err;
  wrn = left_in master.wrn q.wrn;
}

abbrev printing : Streams → Bytes → Bytes → Streams
printing s out err = record { stdout = s.stdout ++ out; stderr = s.stderr ++ err }

-- The loop over the engines: the exit status, and the streams.
unfoldable pub query_engines : World → QueryOptions → List Engine → Streams → Result (ℕ × Streams)
query_engines w master [] s = ok (0, s)
query_engines w master (engine ∷ engines) s = gnugol_engine_query engine master >>= λ (result, q).
    print_results w q >>= λ printed. elim printed [
      | none ↦ ok (1, s)
      | some text ↦ print_errors result q >>= λ report.
          query_engines w (carried master q) engines (printing s text report)
    ]

abbrev after_setup : World → Client → Result (ℕ × Streams)
after_setup w c = elim c.c_engines [
  | [] ↦ fault assertion
  | engine ∷ engines ↦ query_engines w c.o (engine ∷ engines) (record { stdout = []; stderr = [] })
]

abbrev silent : ℕ → Result (ℕ × Streams)
silent status = ok (status, record { stdout = []; stderr = [] })

-- `main(argc,argv)`: `finish_setup` reads `charset` first, which may point into the array of
-- `process_environ`, unless the command line set it again. It is for the arguments behind the program's name; what `usage`, `finish_setup` and
-- the loading of engines print is left out. `exit(-1)` is the status 255.
unfoldable pub main : World → List Bytes → Result (ℕ × Streams)
main w argv = gnugol_default_QueryOptions w.lang (gnugol_init_QueryOptions w.memory).1 >>= λ master.
    process_environ w.load w.options w.gnugol_opts (record { o = master; c_engines = [] })
    >>= λ first. elim first [
      | none ↦ silent 255
      | some (c, dangling) ↦ process_options w.load (w.options argv) c >>= λ second. elim second [
        | none ↦ silent 255
        | some d ↦
            if dangling && not (sets_charset (w.options argv))
            then fault bad_read
            else (finish_setup w.load w.iconv (w.operands argv) d >>= λ ended. elim ended [
              | failed errno ↦ silent 1
              | ready e ↦ after_setup w e
            ])
      ]
    ]

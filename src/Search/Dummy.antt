-- ===== src/Search/Dummy.antt =====
-- src/engines/dummy.c.
use gnugol.Base.{
  Option, none, some, List, [], ◌∷◌, ◌++◌, pos, succ, pred, Bytes, codes, Result, ok, ◌>>=◌,
}
use gnugol.Clib.Printf.{str}
use gnugol.Format.Buffers.{outw}
use gnugol.Format.Lines.{gnugol_result_out}
use gnugol.Format.Options.{gnugol_header_out, gnugol_footer_out}
use gnugol.Handy.Entities.{Utf8}
use gnugol.Query.{QueryOptions}
use gnugol.Search.Json.{Answer}
use gnugol.Search.Query.{trace_any}

-- The calls between the header and the footer, and the changes of `q->indent` by 1.
pub data Step : Type 0 where
  result : Option Bytes → Option Bytes → Option Bytes → Step
  warn : Bytes → Step
  outdent deepen : Step

unfoldable pub dummy_step : Utf8 → QueryOptions → Step → Result QueryOptions
unfolding outw
dummy_step u q (result url title snippet) = gnugol_result_out u q url title snippet
dummy_step u q (warn text) = outw q text []
dummy_step u q outdent = ok (record q { indent = pred q.indent })
dummy_step u q deepen = ok (record q { indent = succ q.indent })

unfoldable pub dummy_run : Utf8 → List Step → QueryOptions → Result QueryOptions
unfolding dummy_step
dummy_run u [] q = ok q
dummy_run u (s ∷ steps) q = dummy_step u q s >>= dummy_run u steps

-- The calls at the indent 1, and then those from the indent 2 on.
unfoldable pub dummy_title : Step
dummy_title =
    result (some (codes "http://gnugol.taht.net/bugs.html")) (some (codes "Gnugol Engine Tests"))
      (some (codes "Some tests of the formatter"))

unfoldable pub dummy_steps : List Step
dummy_steps =
    result (some (codes "http://gnugol.taht.net/")) (some (codes "Gnugol - Command line Search"))
      (some (codes "This is a dummy query"))
    ∷ result (some (codes "http://www.google.com"))
        (some ((0xE2 ∷ 0x80 ∷ 0x9C ∷ []) ++ codes "Google Rocks" ++ (0xE2 ∷ 0x80 ∷ 0x9D ∷ [])))
        (some (codes "google is the source of many good things."))
    ∷ result (some (codes "http://cryptolisting.taht.net"))
        (some (codes "Cryptolisting - Making STARTTLS more common...  "))
        (some (codes "<b>This</b> has <i>, well (had, in some cases) html</i>."))
    ∷ result (some (codes "http://www.taht.net")) (some (codes "Dave's web site"))
        (some (codes "Dave has a <i>web</i> site?"))
    ∷ outdent
    ∷ result (some (codes "http://gnugol.taht.net/bugs.html"))
        (some (codes "Stuff that needs to get escaped properly"))
        (some (
          codes
            "Some engines are going to need [[whatever]] escaped properly. Mailing lists in particular exhibit this problem."))
    ∷ deepen
    ∷ warn (codes "Tests: Formatting Escapes\n")
    ∷ result (some (codes "http://www.lwn.net/][][[[]"))
        (some (codes "Url with bad square bracket stuff")) (some [])
    ∷ result (some (codes "http://www.orgmode.org"))
        (some (codes "[ORG] - My favorite mailing list"))
        (some (codes "Url with description with square brackets"))
    ∷ result (some (codes "http://www.lwn.net/][][[[]")) (some (codes "[BAH!] - Humbug")) (
        some (
          codes
            "Url and description with bad square bracket stuff - it's not clear to me if you can even PUT square brackets in an url..."))
    ∷ outdent
    ∷ result (some (codes "http://gnugol.taht.net/bugs.html")) (some (codes "UTF-8")) (some [])
    ∷ deepen
    ∷ warn (codes "Tests: UTF-8\n")
    ∷ result (some (codes "http://gnugol.taht.net/bugs.html")) (some (codes "Unimplemented"))
        (some (codes "No tests for UTF-8 implemented yet"))
    ∷ outdent
    ∷ result (some (codes "http://gnugol.taht.net/bugs.html")) (some (codes "Bad HTML")) (some [])
    ∷ deepen
    ∷ warn (codes "Tests: Bad HTML\n")
    ∷ result (some (codes "http://gnugol.taht.net/bugs.html")) (some (codes "Unimplemented"))
        (some (codes "No tests for bad HTML implemented yet"))
    ∷ outdent
    ∷ result (some (codes "http://gnugol.taht.net/bugs.html")) (some (codes "Empty String"))
        (some [])
    ∷ deepen
    ∷ warn (codes "Tests: Empty string\n")
    ∷ result (some []) (some (codes "There was no url in this test")) (some (codes "Empty url"))
    ∷ result (some (codes "http://gnugol.taht.net/bugs.html")) (some [])
        (some (codes "Empty title"))
    ∷ result (some []) (some [])
        (some (codes "Empty title and URL - all Empty coming up next - should not appear"))
    ∷ result (some []) (some []) (some [])
    ∷ result (some (codes "http://gnugol.taht.net/bugs.html"))
        (some (codes "End of empty string test")) (some (codes "Did it look right?"))
    ∷ outdent
    ∷ result (some (codes "http://gnugol.taht.net/bugs.html")) (some (codes "NULL Pointers")) none
    ∷ deepen
    ∷ warn (codes "Tests: Null PTR\n")
    ∷ result none (some (codes "There's a null url here")) (some (codes "NULL url"))
    ∷ result (some (codes "http://gnugol.taht.net/bugs.html")) none (some (codes "NULL title"))
    ∷ result none none (some (codes "NULL title and URL - all NULLs coming up - should not appear"))
    ∷ result none none none
    ∷ result (some (codes "http://gnugol.taht.net/bugs.html")) (some (codes "End of NULL ptr test"))
        (some (codes "No KaBOOM!? Awesome!"))
    ∷ outdent
    ∷ result (some (codes "http://gnugol.taht.net/bugs.html"))
        (some (codes "Wow - Gnugol survived"))
        (some (codes "It sure didn't when I first wrote these tests."))
    ∷ deepen
    ∷ result (some (codes "http://gnugol.taht.net/bugs.html"))
        (some (codes "Mere Survival Means NOTHING"))
        (some (
          codes
            "Now you need to go and check the quality of the output against the formatter for the output you were testing and make sure it looks correct."))
    ∷ []

-- `search(q)`
unfoldable pub dummy_search : Utf8 → QueryOptions → Answer
dummy_search u q = do
  asked ← trace_any q (codes "trying url: %s") (str q.querystr ∷ [])
  told ← trace_any asked (codes "trying keywords: %s") (str asked.keywords ∷ [])
  headed ← gnugol_header_out u (record told { indent = pos 1 })
  titled ← dummy_step u headed dummy_title
  ended ← dummy_run u dummy_steps (record titled { indent = pos 2 })
  last ← gnugol_footer_out ended
  ok (pos 0, last)

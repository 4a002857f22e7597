-- ===== src/Search/Forms.antt =====
-- The forms of the URLs of src/engines/googlev1.c, src/engines/googlev2.c and src/engines/stackapps.c.
use gnugol.Base.{ℕ, zero, suc, Option, none, some, ◌++◌, ℤ, pos, negsuc, Bytes, codes}
use gnugol.Clib.Printf.{decimal_int}
use gnugol.Query.{QueryOptions}
use gnugol.Search.Custom.{custom_site}
use gnugol.Search.Google.{google_site}
use gnugol.Search.Query.{clamp_safe, at_most, language_parameter}
use gnugol.Search.Stack.{stack_site}

pub data Keyed : Type 0 where
  google custom stack : Keyed

abbrev pub keyfile_of : Keyed → Bytes
keyfile_of google = codes "googlekey"
keyfile_of custom = codes "googlekeyv2"
keyfile_of stack = codes ".stackappkey"

-- The text of a safe level that is limited to 0 up to 2.
unfoldable pub level_name : ℤ → Bytes
level_name (negsuc n) = codes "off"
level_name (pos zero) = codes "off"
level_name (pos (suc zero)) = codes "moderate"
level_name (pos (suc (suc n))) = codes "active"

abbrev pub ranged : QueryOptions → Bytes
ranged q =
    codes "&rsz="
    ++ (decimal_int q.nresults
        ++ (codes "&start="
            ++ (decimal_int q.position
                ++ (codes "&safe="
                    ++ (level_name q.safe
                        ++ (language_parameter (codes "&hl=") q.input_language
                            ++ (language_parameter (codes "&lr=") q.output_language
                                ++ (codes "&q=" ++ q.keywords))))))))

abbrev pub counted : QueryOptions → Bytes
counted q = codes "pagesize=" ++ (decimal_int q.nresults ++ (codes "&intitle=" ++ q.keywords))

-- The whole URL for the limited options, with the key where there is one.
unfoldable pub url_of : Keyed → QueryOptions → Option Bytes → Bytes
url_of google q none = google_site ++ ranged q
url_of google q (some key) = google_site ++ (codes "&key=" ++ (key ++ ranged q))
url_of custom q none = custom_site ++ ranged q
url_of custom q (some key) =
    custom_site
    ++ (codes "key=" ++ (key ++ (codes "&cx=012472956730922726645:gjqfh19akp4&q=" ++ q.keywords)))
url_of stack q none = stack_site ++ (codes "?" ++ counted q)
url_of stack q (some key) = stack_site ++ (codes "?key=" ++ (key ++ (codes "&" ++ counted q)))

abbrev pub most_of : Keyed → ℕ
most_of google = 8
most_of custom = 8
most_of stack = 100

abbrev pub limited : Keyed → QueryOptions → QueryOptions
limited site q = record q { safe = clamp_safe q.safe; nresults = at_most (most_of site) q.nresults }

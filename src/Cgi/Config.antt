-- ===== src/Cgi/Config.antt =====
-- `Config`, the cookie and `cgiMain` of src/clients/gnugol_cgi.c.
use gnugol.Answer.{QueryData}
use gnugol.Base.{
  ℕ, Bool, true, not, Option, none, some, List, [], ◌∷◌, ◌++◌, if◌then◌else◌, pos, nonzero, Bytes,
  codes, is_empty, Result, ok, ◌>>=◌,
}
use gnugol.Cgi.{Cgi, form_string, titlepage, empty_submit, handle_submit}
use gnugol.Clib.Printf.{str, int, sprintf}
use gnugol.Query.{QueryOptions, zeroed}
use gnugol.Udp.{Undefined, Network}

-- The options that `HandleConfig` reads and that src/include/query.h no longer has.
pub record LostOptions : Type 0 where
  pub xml : Bool
  pub html : Bool
  pub lucky : Bool
  pub dummy : Bool

-- `penabled`: a box, checked if the option is set.
unfoldable pub box : Bytes → Bool → Result Bytes
unfolding sprintf
box name on =
    sprintf (codes "<input type=checkbox name=\"" ++ name ++ codes "\" %s%s<br>")
      (str (if on then codes "checked>" else codes ">") ∷ str name ∷ [])

unfoldable pub boxes : List (Bytes × Bool) → Result Bytes
unfolding box
boxes [] = ok []
boxes ((name, on) ∷ rest) = do line ← box name on; lines ← boxes rest; ok (line ++ lines)

-- The rows of `HandleConfig`.
unfoldable pub config_rows : QueryOptions → LostOptions → List (Bytes × Bool)
config_rows o lost =
    (codes "urls", o.urls)
    ∷ (codes "titles", nonzero o.titles)
    ∷ (codes "snippets", nonzero o.snippets)
    ∷ (codes "ads", o.ads)
    ∷ (codes "misc", o.misc)
    ∷ (codes "reverse", o.reverse)
    ∷ (codes "broadcast", o.broadcast)
    ∷ (codes "multicast", o.multicast)
    ∷ (codes "force", o.force)
    ∷ (codes "cache", o.cache)
    ∷ (codes "xml", lost.xml)
    ∷ (codes "html", lost.html)
    ∷ (codes "offline", o.offline)
    ∷ (codes "lucky", lost.lucky)
    ∷ (codes "register", o.reg)
    ∷ (codes "prime", o.prime)
    ∷ (codes "engine", o.engine)
    ∷ (codes "mirroring", o.mirror)
    ∷ (codes "plugin", o.plugin)
    ∷ (codes "blind", o.blind)
    ∷ (codes "ipv4", o.ipv4)
    ∷ (codes "ipv6", o.ipv6)
    ∷ (codes "dummy", lost.dummy)
    ∷ (codes "debug", nonzero o.debug)
    ∷ (codes "trust", o.trust)
    ∷ []

unfoldable pub handle_config : QueryOptions → LostOptions → Result Bytes
unfolding sprintf boxes config_rows
handle_config o lost = do
  top ←
      sprintf
        (codes
            "You are requesting <input type=text name=results size=1 value=%d> results starting at "
          ++ codes "position <input type=text name=pos size=3 value=%d><br>")
        (int o.nresults ∷ int o.position ∷ [])
  rows ← boxes (config_rows o lost)
  ok (top ++ rows)

unfoldable pub configured : QueryData → QueryData
configured q = record q {
  options = record q.options {
    urls = true;
    titles = pos 0;
    snippets = pos 1;
    nresults = pos 3;
    position = pos 0;
  };
}

unfoldable pub config : LostOptions → QueryData → Result (QueryData × Bytes)
unfolding configured titlepage handle_config
config lost q = do
  let set = configured q
  top ← titlepage set (codes "Gnugol config")
  form ← handle_config set.options lost
  ok (
    set,
    top
        ++ codes "<form action=/cgi-bin/gnugol.cgi?config method=post>"
        ++ form
        ++ codes "<input type=submit name=reconfig></form><hr>\n",
  )

-- `CookieSet`: the name and the value of the cookie that is set, if one is.
unfoldable pub cookie_set : Cgi → Option (Bytes × Bytes)
unfolding form_string
cookie_set cgi =
    let name = form_string cgi (codes "cname") 1023 in
    if is_empty name then none else some (name, form_string cgi (codes "cvalue") 1023)

-- What `calloc` leaves.
unfoldable pub no_query : QueryData
unfolding zeroed
no_query = record {
  query = [];
  keywords = [];
  options = zeroed;
  links = [];
  snippets = [];
  titles = [];
}

-- `penabled("blind",blind)` as `cgiMain` has it: set if the box is not ticked.
unfoldable pub sighted : Cgi → QueryData → QueryData
sighted cgi q = record q { options = record q.options { blind = not (cgi.ticked (codes "blind")) } }

-- The page that `cgiMain` prints.
unfoldable pub cgi_page :
    Cgi
    → Network
    → Undefined
    → (size limit : ℕ) → LostOptions
    → QueryData
    → Result (QueryData × Bytes)
unfolding config empty_submit handle_submit
cgi_page cgi net undefined size limit lost q =
    if cgi.clicked (codes "config")
    then config lost q
    else if cgi.clicked (codes "btnG")
    then handle_submit cgi net undefined size limit q
    else empty_submit cgi limit q

-- `cgiMain`: the cookie and the page.
unfoldable pub cgi_main :
    Cgi
    → Network
    → Undefined
    → (size limit : ℕ) → LostOptions
    → Result (Option (Bytes × Bytes) × Bytes)
unfolding cookie_set sighted no_query cgi_page
cgi_main cgi net undefined size limit lost = do
  page ← cgi_page cgi net undefined size limit lost (sighted cgi no_query)
  ok (cookie_set cgi, page.1 ++ codes "</body></html>\n")

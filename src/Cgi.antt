-- ===== src/Cgi.antt =====
-- src/clients/gnugol_cgi.c: the client behind a web page. What is printed to `cgiOut` is returned.
pub mod Config
pub mod Links
use gnugol.Answer.{QueryData}
use gnugol.Base.{
  ℕ, zero, suc, ◌+◌, ◌*◌, ◌/◌, ◌%◌, ◌^◌, Bool, true, false, not, ◌&&◌, ◌||◌, Option, none, some,
  List, [], ◌∷◌, ◌++◌, leb, ◌==◌, if◌then◌else◌, ℤ, pos, negsuc, Bytes, codes, is_empty, length,
  take, get_elem?, Result, ok, fault, overrun, bad_read, ◌>>=◌,
}
use gnugol.Clib.Printf.{str, sprintf}
use gnugol.Udp.{Undefined, Network, query_main}

-- The CGI library: the fields, buttons and boxes of the form that was sent, where a missing field
-- reads as empty, the name of the script, and what the escapes print of a string.
pub record Cgi : Type 0 where
  pub form : Bytes → Bytes
  pub clicked : Bytes → Bool
  pub ticked : Bytes → Bool
  pub script_name : Bytes
  pub html_escape : Bytes → Bytes
  pub value_escape : Bytes → Bytes

-- `cgiFormString(name,result,size)`
unfoldable pub form_string : Cgi → Bytes → ℕ → Bytes
form_string cgi name size = take size (cgi.form name)

unfoldable pub banner : QueryData → Bytes
banner q =
    if q.options.blind
    then codes "<body>"
    else codes "<body><span style=\"font-size:.8em; text-align:top\">"
      ++ ((if q.options.ipv6
            then codes "<a href=http://ipv6.google.com/images>Images</a> "
              ++ codes "<a href=http://ipv6.google.com/news>News</a> "
              ++ codes "<a href=http://ipv6.google.com/maps>Maps</a> "
            else codes "<a href=http://www.google.com/images>Images</a> "
              ++ codes "<a href=http://www.google.com/news>News</a> ")
          ++ codes "<span style=\"text-align:left\"> <a href=gnugol://gnugol>Way Faster Search</a> "
          ++ codes "<a href=gnugol://IpV6>Ipv6 Enabled</a></span></span><br>\n"
          ++ codes "<img src=/gnugol/images/gnugol.png><br><hr>")

unfoldable pub titlepage : QueryData → Bytes → Result Bytes
unfolding banner sprintf
titlepage q title = do
  line ← sprintf (codes "<title>%s</title>") (str title ∷ [])
  ok (codes "<html><head>\n" ++ line ++ codes "</head>\n" ++ banner q)

-- `ShowForm`, with the size of the array `q->keywords`.
unfoldable pub show_form : Cgi → ℕ → QueryData → Result (QueryData × Bytes)
unfolding form_string
show_form cgi limit q =
    let keywords = form_string cgi (codes "q") 1079 in
    let start =
      codes "<form method=\"GET\"action=\"" ++ cgi.value_escape cgi.script_name ++ codes "\"><p>" in
    let end = codes "<input type=submit name=\"btnG\" value=\"Search\"></form>\n" in
    if is_empty keywords
    then ok (q, start ++ codes "Query: <input type=\"text\" name=\"q\" >\n" ++ end)
    else if leb limit (length keywords)
    then fault overrun
    else ok (
      record q { keywords = keywords },
      start
          ++ codes "Query: <input type=\"text\" name=\"q\" value=\""
          ++ cgi.value_escape keywords
          ++ codes "\" >\n"
          ++ end,
    )

-- The entry of an array of pointers that was cleared: `NULL` where none was stored.
unfoldable pub pointer_at : List (Option Bytes) → ℕ → Option Bytes
pointer_at entries i = elim (get_elem? entries i) [ none ↦ none | some entry ↦ entry ]

-- One result; a `NULL` for `%s` is undefined.
unfoldable pub print_link : Option Bytes → Option Bytes → Result Bytes
unfolding sprintf
print_link (some link) (some snippet) =
    sprintf (codes "<a href=\"%s\">%s</a><br>") (str link ∷ str snippet ∷ [])
print_link none snippet = fault bad_read
print_link (some link) none = fault bad_read

-- `a | b` of two numbers below `2 ^ bits`.
unfoldable pub bit_or : ℕ → ℕ → ℕ → ℕ
bit_or zero a b = 0
bit_or (suc bits) a b = (if a % 2 + b % 2 == 0 then 0 else 1) + 2 * bit_or bits (a / 2) (b / 2)

-- `q->options.urls >> 3 | q->options.snippets >> 2 | q->options.titles >> 1` is 7 or 12, which
-- prints a result twice; the bit `urls` is shifted out, and with a negative number it is negative.
unfoldable pub prints_twice : ℤ → ℤ → Bool
unfolding bit_or
prints_twice (pos snippets) (pos titles) =
    bit_or 31 (snippets / 4) (titles / 2) == 7 || bit_or 31 (snippets / 4) (titles / 2) == 12
prints_twice (pos snippets) (negsuc titles) = false
prints_twice (negsuc snippets) titles = false

-- The loop over so many results from the `i`-th on.
unfoldable pub print_links : Bool → ℕ → ℕ → QueryData → Result Bytes
print_links twice zero i q = ok []
print_links twice (suc rounds) i q = do
  line ← print_link (pointer_at q.links i) (pointer_at q.snippets i)
  rest ← print_links twice rounds (i + 1) q
  ok ((if twice then line ++ line else line) ++ rest)

abbrev pub rounds_of : ℤ → ℕ
rounds_of (pos n) = n
rounds_of (negsuc n) = 0

-- `Query`
unfoldable pub cgi_query : Network → Undefined → ℕ → QueryData → Result (QueryData × Bytes)
cgi_query net undefined size q = do
  asked ← query_main net undefined size (some (codes "::1")) q
  links ←
      print_links (prints_twice asked.1.options.snippets asked.1.options.titles) (rounds_of asked.0)
        0 asked.1
  ok (asked.1, links)

-- `EmptySubmit`
unfoldable pub empty_submit : Cgi → ℕ → QueryData → Result (QueryData × Bytes)
unfolding titlepage show_form
empty_submit cgi limit q = do
  top ← titlepage q (codes "Gnugol Search")
  form ← show_form cgi limit q
  ok (form.0, top ++ form.1)

-- `HandleSubmit`, with its array `query` of 1280 bytes.
unfoldable pub handle_submit :
    Cgi → Network → Undefined → (size limit : ℕ) → QueryData → Result (QueryData × Bytes)
unfolding form_string titlepage cgi_query show_form
handle_submit cgi net undefined size limit q =
    if leb 1280 (length q.keywords) then fault overrun else (do
      top ← titlepage q (form_string cgi (codes "q") 1279)
      let asking = record q {
        options = record q.options { urls = true; snippets = pos 1; nresults = pos 3 };
      }
      results ← cgi_query net undefined size asking
      form ← show_form cgi limit results.0
      ok (form.0, cgi.html_escape q.keywords ++ top ++ results.1 ++ codes "<hr>" ++ form.1))

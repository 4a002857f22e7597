-- ===== src/Cgi/Links.antt =====
-- The results that a page lists.
use gnugol.Answer.{QueryData}
use gnugol.Base.{
  ℕ, zero, suc, ◌+◌, ◌≡◌, refl, sym, subst, Bool, Option, some, List, [], ◌∷◌, ◌++◌, map,
  if◌then◌else◌, pos, Bytes, codes, length, get_elem?, ok, arith,
}
use gnugol.Cgi.{cgi_query, pointer_at, print_link, print_links, prints_twice}
use gnugol.Clib.Printf.{fill, pieces, convert, sprintf}
use gnugol.Udp.{Undefined, Network, query_main}

abbrev pub link_line : Bytes → Bytes → Bytes
link_line link snippet =
    codes "<a href=\"" ++ (link ++ (codes "\">" ++ (snippet ++ codes "</a><br>")))

-- The lines of the results, each twice where the page repeats it.
abbrev pub listed : Bool → List Bytes → List Bytes → Bytes
listed twice [] snippets = []
listed twice (l ∷ links) [] = []
listed twice (l ∷ links) (s ∷ snippets) =
    (if twice then link_line l s ++ link_line l s else link_line l s) ++ listed twice links snippets

print_link-link_line :
    (link snippet : Bytes) → print_link (some link) (some snippet) ≡ ok (link_line link snippet)
unfolding print_link sprintf fill pieces convert
print_link-link_line link snippet = refl

-- The pointers from the `i`-th on are those of the texts.
abbrev From : List (Option Bytes) → ℕ → List Bytes → Type 0
From entries i texts =
    (j : ℕ) (text : Bytes) → get_elem? texts j ≡ some text → pointer_at entries (i + j) ≡ some text

From-tail :
    (entries : List (Option Bytes)) (i : ℕ) (text : Bytes) (texts : List Bytes)
    → From entries i (text ∷ texts)
    → From entries (i + 1) texts
From-tail entries i text texts h j t at =
    subst (λ k. pointer_at entries k ≡ some t) (omega arith) (h (suc j) t at)

From-map :
    (texts : List Bytes) (j : ℕ) (text : Bytes)
    → get_elem? texts j ≡ some text
    → pointer_at (map some texts) j ≡ some text
unfolding pointer_at
From-map [] j text at = cc
From-map (t ∷ texts) zero text at = at
From-map (t ∷ texts) (suc j) text at = From-map texts j text at

print_links-listed :
    (twice : Bool) (q : QueryData) (links snippets : List Bytes) (i : ℕ)
    → From q.links i links
    → From q.snippets i snippets
    → length links ≡ length snippets
    → print_links twice (length links) i q ≡ ok (listed twice links snippets)
unfolding print_links
print_links-listed twice q [] snippets i h k same = refl
print_links-listed twice q (l ∷ links) [] i h k same = absurd (omega arith)
print_links-listed twice q (l ∷ links) (s ∷ snippets) i h k same =
    let here : i + 0 ≡ i = omega arith in
    let link : pointer_at q.links i ≡ some l =
      subst (λ n. pointer_at q.links n ≡ some l) here (h 0 l refl) in
    let snippet : pointer_at q.snippets i ≡ some s =
      subst (λ n. pointer_at q.snippets n ≡ some s) here (k 0 s refl) in
    let rest : print_links twice (length links) (i + 1) q ≡ ok (listed twice links snippets) =
      print_links-listed twice q links snippets (i + 1) (From-tail q.links i l links h)
        (From-tail q.snippets i s snippets k) (omega arith) in
    rw (link, snippet, print_link-link_line l s, rest) refl

map-From :
    (entries : List (Option Bytes)) (texts : List Bytes)
    → entries ≡ map some texts
    → From entries 0 texts
map-From entries texts e j text at =
    subst (λ k. pointer_at entries k ≡ some text) (omega arith)
      (subst (λ es. pointer_at es j ≡ some text) (sym e) (From-map texts j text at))

-- Where `query_main` returns with as many snippets as URLs, `Query` prints a link for each URL, in
-- the order of the answer and with the snippet that belongs to it, and once or twice throughout.
pub cgi_query-listed :
    (net : Network) (undefined : Undefined) (size : ℕ) (q after : QueryData)
    (links snippets : List Bytes)
    → query_main net undefined size (some (codes "::1")) q ≡ ok (pos (length links), after)
    → after.links ≡ map some links
    → after.snippets ≡ map some snippets
    → length links ≡ length snippets
    → cgi_query net undefined size q
      ≡ ok (after, listed (prints_twice after.options.snippets after.options.titles) links snippets)
unfolding cgi_query
cgi_query-listed net undefined size q after links snippets run h k same =
    rw
      (
        run,
        print_links-listed (prints_twice after.options.snippets after.options.titles) after links
            snippets 0 (map-From after.links links h) (map-From after.snippets snippets k) same,
      )
      refl

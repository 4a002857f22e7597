-- ===== src/Search/Credits/Outline.antt =====
-- What `search` of src/engines/credits.c prints where it shows the whole table.
use gnugol.Base.{
  ℕ, ◌+◌, ◌≡◌, refl, sym, ap, ◌∙◌, true, false, ◌||◌, Bool-cases, inl, inr, Option, none, some,
  List, [], ◌∷◌, ◌++◌, arith, if◌then◌else◌, pos, Bytes, codes, eq_bytes, eq_bytes→eq, subst, All,
  Result, ok, fault, ◌>>=◌, >>=-assoc, >>=-cong, >>=-ok,
}
use gnugol.Engines.Load.{Loader}
use gnugol.Format.Options.{gnugol_header_out, gnugol_footer_out}
use gnugol.Handy.Entities.{Utf8}
use gnugol.Query.{QueryOptions}
use gnugol.Search.Credits.Rows.{Credit, Category, credits, cmap}
use gnugol.Search.Credits.{
  credits_search, search_engines, match_categories, match_credits, show_credit, show_heading,
  show_under, no_keywords, is_header, Shown,
}

-- The first row of the categories with the name, counted from `j` on.
unfoldable pub find_category : Bytes → ℕ → List Category → Option (ℕ × Category)
find_category name j [] = none
find_category name j (k ∷ ks) =
    let rest = find_category name (j + 1) ks in
    if eq_bytes k.catagory name then some (j, k) else rest

-- What stands on a line of the outline.
pub data Item : Type 0 where
  heading : Bytes → Item
  row : Credit → Item

-- What a row adds behind one of the category `at`, and the category that it leaves.
abbrev placed : Credit → Option (ℕ × Category) → Option ℕ → Option ℕ × List Item
placed c none at = (at, [])
placed c (some (j, k)) at =
    if is_header at j then (at, row c ∷ []) else (some j, heading k.desc ∷ row c ∷ [])

-- The rows that have a category of the list, with the category's text above the first one and
-- wherever the category is another than that of the row before.
unfoldable pub outline : List Category → Option ℕ → List Credit → List Item
outline ks at [] = []
outline ks at (c ∷ cs) =
    let here = placed c (find_category c.catagory 0 ks) at in here.1 ++ outline ks here.0 cs

with_header :
    (m : Result QueryOptions) (at : Option ℕ) (next : Shown → Result QueryOptions)
    → ((m >>= λ told. ok (at, told)) >>= next)
      ≡ ((m >>= λ told. ok told) >>= λ told. next (at, told))
with_header (fault why) at next = refl
with_header (ok told) at next = refl

-- No two categories of the list have the same name.
abbrev pub Distinct : List Category → Type 0
Distinct [] = Unit {0}
Distinct (k ∷ ks) = All (λ l. eq_bytes l.catagory k.catagory ≡ false) ks × Distinct ks

module _ (u : Utf8) where
  -- An item, and the items one after the other.
  unfoldable pub print_item : QueryOptions → Item → Result QueryOptions
  print_item q (heading text) = show_heading u q text
  print_item q (row c) = show_credit u q c

  unfoldable pub print_items : QueryOptions → List Item → Result QueryOptions
  unfolding print_item
  print_items q [] = ok q
  print_items q (i ∷ items) = print_item q i >>= λ next. print_items next items

  match_categories_none :
      (c : Credit) (j : ℕ) (ks : List Category) (at : Shown)
      → All (λ k. eq_bytes k.catagory c.catagory ≡ false) ks
      → match_categories u c j ks at ≡ ok at
  unfolding match_categories
  match_categories_none c j [] at others = refl
  match_categories_none c j (k ∷ ks) at (other, others) =
      rw other (match_categories_none c (j + 1) ks at others)

  abbrev show_found : Credit → Option (ℕ × Category) → Shown → Result Shown
  show_found c none at = ok at
  show_found c (some (j, k)) at = show_under u c j k at

  match_categories-find_category :
      (c : Credit) (j : ℕ) (ks : List Category) (at : Shown)
      → Distinct ks
      → match_categories u c j ks at ≡ show_found c (find_category c.catagory j ks) at
  unfolding match_categories find_category
  match_categories-find_category c j [] at distinct = refl
  match_categories-find_category c j (k ∷ ks) at distinct =
      elim (Bool-cases (eq_bytes k.catagory c.catagory)) [
        | inl e ↦
            let name = eq_bytes→eq k.catagory c.catagory e in
            let others =
              subst (λ text. All (λ l. eq_bytes l.catagory text ≡ false) ks) name distinct.0 in
            rw e (
              >>=-cong (show_under u c j k at) _ _
                (λ next. match_categories_none c (j + 1) ks next others)
              ∙ >>=-ok (show_under u c j k at))
        | inr e ↦ rw e (match_categories-find_category c (j + 1) ks at distinct.1)
      ]

  print_items-append :
      (q : QueryOptions) (items more : List Item)
      → print_items q (items ++ more) ≡ (print_items q items >>= λ next. print_items next more)
  unfolding print_items
  print_items-append q [] more = refl
  print_items-append q (i ∷ items) more =
      >>=-cong (print_item q i) _ _ (λ next. print_items-append next items more)
      ∙ sym (>>=-assoc (print_item q i) _ _)

  show_found-placed :
      (c : Credit) (r : Option (ℕ × Category)) (at : Option ℕ) (q : QueryOptions)
      (next : Shown → Result QueryOptions)
      → (show_found c r (at, q) >>= next)
        ≡ (print_items q (placed c r at).1 >>= λ told. next ((placed c r at).0, told))
  unfolding print_items print_item show_under
  show_found-placed c none at q next = refl
  show_found-placed c (some (j, k)) at q next = elim (Bool-cases (is_header at j)) [
    | inl e ↦ rw e (with_header (show_credit u q c) at next)
    | inr e ↦ rw e (
        >>=-assoc (show_heading u q k.desc) _ _
        ∙ >>=-cong (show_heading u q k.desc) _ _
            (λ headed. with_header (show_credit u headed c) (some j) next)
        ∙ sym (>>=-assoc (show_heading u q k.desc) _ _))
  ]

  match_credits-outline :
      (ks : List Category) (cs : List Credit) (at : Option ℕ) (q : QueryOptions)
      (next : QueryOptions → Result QueryOptions)
      → Distinct ks
      → (match_credits u ks cs (at, q) >>= λ (header_no, told). next told)
        ≡ (print_items q (outline ks at cs) >>= next)
  unfolding match_credits outline print_items
  match_credits-outline ks [] at q next distinct = refl
  match_credits-outline ks (c ∷ cs) at q next distinct =
      let r = find_category c.catagory 0 ks in
      let now = (placed c r at).0 in
      let items = (placed c r at).1 in
      let more : Shown → Result QueryOptions =
        λ before. match_credits u ks cs before >>= λ (header_no, told). next told in
      ap (λ first. (first >>= match_credits u ks cs) >>= λ (header_no, told). next told)
        (match_categories-find_category c 0 ks (at, q) distinct)
      ∙ >>=-assoc (show_found c r (at, q)) _ _
      ∙ show_found-placed c r at q more
      ∙ >>=-cong (print_items q items) _ _
          (λ told. match_credits-outline ks cs now told next distinct)
      ∙ sym (>>=-assoc (print_items q items) _ _)
      ∙ ap (λ printed. printed >>= next) (sym (print_items-append q items (outline ks now cs)))

  cmap-Distinct : Distinct cmap
  unfolding cmap eq_bytes
  cmap-Distinct = ground arith

  -- For empty keywords, and for `all`, `credits_search` prints, from the indent 2 on, a heading for
  -- the engines, the header, the engines, then the outline of the table, and then the footer; it
  -- returns 0.
  pub credits_search-outline :
      (load : Loader) (files : Option (List Bytes)) (q : QueryOptions)
      → (eq_bytes (codes "all") q.keywords || no_keywords q) ≡ true
      → credits_search u load files q ≡ (
          show_heading u (record q { indent = pos 2 }) (codes "Gnugol's supported search engines")
          >>= λ headed. gnugol_header_out u headed >>= λ begun.
              search_engines u load files begun >>= λ listed.
              print_items listed (outline cmap none credits) >>= λ last.
              gnugol_footer_out last >>= λ foot. ok (pos 0, foot))
  unfolding credits_search
  credits_search-outline load files q all =
      let start = record q { indent = pos 2 } in
      let text = codes "Gnugol's supported search engines" in
      rw all (
        >>=-assoc (show_heading u start text) _ _
        ∙ >>=-cong (show_heading u start text) _ _ λ headed.
          >>=-assoc (gnugol_header_out u headed) _ _
          ∙ >>=-cong (gnugol_header_out u headed) _ _ λ begun.
            >>=-assoc (search_engines u load files begun) _ _
            ∙ >>=-cong (search_engines u load files begun) _ _ λ listed.
              ap (λ told. told >>= λ foot. ok (pos 0, foot))
                (match_credits-outline cmap credits none listed gnugol_footer_out cmap-Distinct)
              ∙ >>=-assoc (print_items listed (outline cmap none credits)) _ _)

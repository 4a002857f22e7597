-- ===== src/Search/Credits/Shows.antt =====
-- What `search` of src/engines/credits.c prints of its table.
use gnugol.Base.{
  ◌≡◌, refl, ap, ◌∙◌, true, false, Bool-cases, inl, inr, Option, some, List, [], ◌∷◌, if◌then◌else◌,
  pos, Bytes, codes, eq_bytes, ok, ◌>>=◌, >>=-assoc, After-cong,
}
use gnugol.Engines.Load.{Loader}
use gnugol.Format.Keeps.{Has, gnugol_header_out-Has, gnugol_result_out-Has}
use gnugol.Format.Lines.{gnugol_result_out}
use gnugol.Format.Options.{gnugol_header_out, gnugol_footer_out}
use gnugol.Handy.Entities.{Utf8}
use gnugol.Query.{QueryOptions}
use gnugol.Search.Credits.Rows.{Credit, credits}
use gnugol.Search.Credits.{credits_search, pick_credits, show_credit, no_keywords}
use gnugol.Search.Prints.{Row, print_rows}

abbrev row_of : Credit → Row
row_of c = record { url = c.url; title = c.name; snippet = c.desc }

-- The rows of a category, in their order.
unfoldable pub rows_of : Bytes → List Credit → List Row
rows_of catagory [] = []
rows_of catagory (c ∷ cs) =
    let rest = rows_of catagory cs in if eq_bytes c.catagory catagory then row_of c ∷ rest else rest

module _ (u : Utf8) where
  pick_credits-rows_of :
      (k : Bytes) (cs : List Credit) (q : QueryOptions)
      → Has k q
      → pick_credits u cs q ≡ print_rows u q (rows_of k cs)
  unfolding pick_credits rows_of print_rows show_credit
  pick_credits-rows_of k [] q h = refl
  pick_credits-rows_of k (c ∷ cs) q h = elim (Bool-cases (eq_bytes c.catagory k)) [
    | inl e ↦
        let same : eq_bytes c.catagory q.keywords ≡ true = ap (eq_bytes c.catagory) h ∙ e in
        rw (e, same)
          (After-cong (Has k) (gnugol_result_out u q (some c.url) (some c.name) (some c.desc)) _ _
            (gnugol_result_out-Has k u q (some c.url) (some c.name) (some c.desc) h)
            (pick_credits-rows_of k cs))
    | inr e ↦
        let other : eq_bytes c.catagory q.keywords ≡ false = ap (eq_bytes c.catagory) h ∙ e in
        rw (e, other) (pick_credits-rows_of k cs q h)
  ]

  pub credits_search-rows_of :
      (load : Loader) (files : Option (List Bytes)) (q : QueryOptions)
      → no_keywords q ≡ false
      → eq_bytes (codes "all") q.keywords ≡ false
      → eq_bytes (codes "engines") q.keywords ≡ false
      → credits_search u load files q ≡ (
          gnugol_header_out u (record q { indent = pos 2 }) >>= λ headed.
          print_rows u headed (rows_of q.keywords credits) >>= λ last.
          gnugol_footer_out last >>= λ foot. ok (pos 0, foot))
  unfolding credits_search
  credits_search-rows_of load files q some_keywords not_all not_engines =
      let start = record q { indent = pos 2 } in
      rw (not_all, some_keywords, not_engines)
        (>>=-assoc (gnugol_header_out u start) _ _
          ∙ After-cong (Has q.keywords) (gnugol_header_out u start) _ _
              (gnugol_header_out-Has q.keywords u start refl)
              (λ begun h.
                >>=-assoc (pick_credits u credits begun) _ _
                ∙ ap (λ told. told >>= λ last. gnugol_footer_out last >>= λ foot. ok (pos 0, foot))
                    (pick_credits-rows_of q.keywords credits begun h)))

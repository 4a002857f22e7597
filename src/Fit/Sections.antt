-- ===== src/Fit/Sections.antt =====
-- An answer that is packed and parsed.
use gnugol.Answer.Lines.{lines_onto, section}
use gnugol.Answer.RoundTrip.{answer, asked}
use gnugol.Base.{
  ℕ, ◌+◌, ◌<◌, ◌≡◌, refl, ap, sym, subst, ◌∙◌, Bool, true, false, List, [], ◌∷◌, ◌++◌, map,
  append_assoc, append-nil, ltb, if◌then◌else◌, if_true, ℤ, nonzero, Bytes, codes, length,
  length-append, length-prefix, ok, arith, Bool-cases, inl, inr,
}
use gnugol.Query.{QueryOptions}
use gnugol.Fit.{Kind, Results, strcat, strcat_all, put_section, put_sections}

-- The texts of a kind are lines, each with its newline, and more than one.
pub record Lined (kind : Kind) (ls : List Bytes) : Type 0 where
  pub several : 0 < kind.last
  pub indexed : kind.last + 1 ≡ length ls
  pub texts : kind.texts ≡ map (λ l. l ++ codes "\n") ls

lines_onto-append : (ls : List Bytes) (a b : Bytes) → lines_onto ls a ++ b ≡ lines_onto ls (a ++ b)
lines_onto-append [] a b = refl
lines_onto-append (l ∷ ls) a b =
    append_assoc l (b'\n' ∷ lines_onto ls a) b ∙ ap (λ t. l ++ b'\n' ∷ t) (lines_onto-append ls a b)

pub strcat-fits :
    (capacity : ℕ) (text b : Bytes)
    → length (b ++ text) < capacity
    → strcat capacity text b ≡ ok (b ++ text)
unfolding strcat
strcat-fits capacity text b h =
    if_true (ltb (length b + length text) capacity) _ _ (ground (arith, length-append b text))

-- The lines behind what is there already.
line_behind : (b l t : Bytes) → (b ++ (l ++ codes "\n")) ++ t ≡ b ++ (l ++ b'\n' ∷ t)
line_behind b l t = append_assoc b (l ++ codes "\n") t ∙ ap (b ++◌) (append_assoc l (codes "\n") t)

pub strcat_all-lines :
    (capacity : ℕ) (ls : List Bytes) (b : Bytes)
    → length (b ++ lines_onto ls []) < capacity
    → strcat_all capacity (length ls) (map (λ l. l ++ codes "\n") ls) b ≡ ok (b ++ lines_onto ls [])
unfolding strcat_all
strcat_all-lines capacity [] b h = ap ok (sym (append-nil b))
strcat_all-lines capacity (l ∷ ls) b h =
    let longer : Bytes = b ++ (l ++ codes "\n") in
    let same : longer ++ lines_onto ls [] ≡ b ++ lines_onto (l ∷ ls) [] =
      line_behind b l (lines_onto ls []) in
    let room : length (longer ++ lines_onto ls []) < capacity =
      subst (λ t. length t < capacity) (sym same) h in
    rw
      (
        strcat-fits capacity (l ++ codes "\n") b
            (omega (arith, length-prefix longer (lines_onto ls []))),
        strcat_all-lines capacity ls longer room,
      )
      (ap ok same)

-- A section behind what is there already, if it is wanted.
abbrev part : Bool → Bytes → List Bytes → Bytes
part wanted name ls = if wanted then section name ls [] else []

pub section-append :
    (name : Bytes) (ls : List Bytes) (b : Bytes)
    → ((b ++ (name ++ codes "\n")) ++ lines_onto ls []) ++ codes "END\n" ≡ b ++ section name ls []
section-append name ls b =
    append_assoc (b ++ (name ++ codes "\n")) (lines_onto ls []) (codes "END\n")
    ∙ ap ((b ++ (name ++ codes "\n")) ++◌) (lines_onto-append ls [] (codes "END\n"))
    ∙ line_behind b name (lines_onto ls (codes "END\n"))

put_section-section :
    (capacity : ℕ) (name : Bytes) (kind : Kind) (ls : List Bytes) (b : Bytes)
    → Lined kind ls
    → length (b ++ section name ls []) < capacity
    → put_section capacity true (name ++ codes "\n") kind b ≡ ok (b ++ section name ls [])
unfolding put_section
put_section-section capacity name kind ls b lined h =
    let named : Bytes = b ++ (name ++ codes "\n") in
    let filled : Bytes = named ++ lines_onto ls [] in
    let room : length (filled ++ codes "END\n") < capacity =
      subst (λ t. length t < capacity) (sym (section-append name ls b)) h in
    let filled_room : length filled < capacity =
      omega (arith, length-prefix filled (codes "END\n")) in
    let named_room : length named < capacity =
      omega (arith, length-prefix named (lines_onto ls [])) in
    let some_texts : ltb 0 kind.last ≡ true = ground (arith, lined.several) in
    rw
      (
        some_texts,
        strcat-fits capacity (name ++ codes "\n") b named_room,
        lined.indexed,
        lined.texts,
        strcat_all-lines capacity ls named filled_room,
        strcat-fits capacity (codes "END\n") filled room,
      )
      (ap ok (section-append name ls b))

put_section-part :
    (capacity : ℕ) (wanted : Bool) (name : Bytes) (kind : Kind) (ls : List Bytes) (b : Bytes)
    → (wanted ≡ true → Lined kind ls)
    → length (b ++ part wanted name ls) < capacity
    → put_section capacity wanted (name ++ codes "\n") kind b ≡ ok (b ++ part wanted name ls)
unfolding put_section
put_section-part capacity true name kind ls b lined h =
    put_section-section capacity name kind ls b (lined refl) h
put_section-part capacity false name kind ls b lined h = ap ok (sym (append-nil b))

-- The results that are packed: what is wanted is made of lines.
pub record Packed (q : Results) (links snippets titles : List Bytes) : Type 0 where
  pub urls : q.options.urls ≡ true
  pub ads : q.options.ads ≡ false
  pub misc : q.options.misc ≡ false
  pub links_lined : Lined q.links links
  pub snippets_lined : nonzero q.options.snippets ≡ true → Lined q.snippets snippets
  pub titles_lined : nonzero q.options.titles ≡ true → Lined q.titles titles

part-asked :
    (wanted : ℤ) (name : Bytes) (ls : List Bytes) (rest : Bytes)
    → part (nonzero wanted) name ls ++ rest ≡ asked wanted name ls rest
part-asked wanted name ls rest = elim (Bool-cases (nonzero wanted)) [
  | inl on ↦ rw on (lines_onto-append (name ∷ ls) (codes "END\n") rest)
  | inr off ↦ rw off refl
]

parts-answer :
    (o : QueryOptions) (links snippets titles : List Bytes)
    → (section (codes "LNK") links [] ++ part (nonzero o.snippets) (codes "SNP") snippets)
        ++ part (nonzero o.titles) (codes "TLE") titles
      ≡ answer o links snippets titles []
parts-answer o links snippets titles =
    let last : part (nonzero o.titles) (codes "TLE") titles
        ≡ asked o.titles (codes "TLE") titles [] =
      sym (append-nil (part (nonzero o.titles) (codes "TLE") titles))
      ∙ part-asked o.titles (codes "TLE") titles [] in
    append_assoc (section (codes "LNK") links []) (part (nonzero o.snippets) (codes "SNP") snippets)
      (part (nonzero o.titles) (codes "TLE") titles)
    ∙ ap
        (λ t.
          section (codes "LNK") links [] ++ (part (nonzero o.snippets) (codes "SNP") snippets ++ t))
        last
    ∙ ap (section (codes "LNK") links [] ++◌)
        (part-asked o.snippets (codes "SNP") snippets (asked o.titles (codes "TLE") titles []))
    ∙ lines_onto-append (codes "LNK" ∷ links) (codes "END\n")
        (asked o.snippets (codes "SNP") snippets (asked o.titles (codes "TLE") titles []))

put_section_off :
    (capacity : ℕ) (name : Bytes) (kind : Kind) (b : Bytes)
    → put_section capacity false name kind b ≡ ok b
unfolding put_section
put_section_off capacity name kind b = refl

pub put_sections-answer :
    (capacity : ℕ) (q : Results) (links snippets titles : List Bytes)
    → Packed q links snippets titles
    → length (answer q.options links snippets titles []) < capacity
    → put_sections capacity q ≡ ok (answer q.options links snippets titles [])
unfolding put_sections
put_sections-answer capacity q links snippets titles p h =
    let first : Bytes = section (codes "LNK") links [] in
    let second : Bytes = part (nonzero q.options.snippets) (codes "SNP") snippets in
    let third : Bytes = part (nonzero q.options.titles) (codes "TLE") titles in
    let whole : (first ++ second) ++ third ≡ answer q.options links snippets titles [] =
      parts-answer q.options links snippets titles in
    let r3 : length ((first ++ second) ++ third) < capacity =
      subst (λ t. length t < capacity) (sym whole) h in
    let r2 : length (first ++ second) < capacity =
      omega (arith, length-prefix (first ++ second) third) in
    let r1 : length first < capacity = omega (arith, length-prefix first second) in
    rw
      (
        p.urls,
        p.ads,
        p.misc,
        put_section-section capacity (codes "LNK") q.links links [] p.links_lined r1,
        put_section-part capacity (nonzero q.options.snippets) (codes "SNP") q.snippets snippets
            first p.snippets_lined r2,
        put_section-part capacity (nonzero q.options.titles) (codes "TLE") q.titles titles
            (first ++ second) p.titles_lined r3,
        put_section_off capacity (codes "ADS\n") q.ads ((first ++ second) ++ third),
        put_section_off capacity (codes "MSC\n") q.misc ((first ++ second) ++ third),
      )
      (ap ok whole)

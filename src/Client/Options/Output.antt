-- ===== src/Client/Options/Output.antt =====
-- The names that the option `-o` takes.
use gnugol.Base.{◌≡◌, ◌≢◌, ℕ, get_elem?, get_elem?-All, refl, List, [], ◌∷◌, Bytes, All, some}
use gnugol.Client.Options.{OutputType, output_type, select_format}
use gnugol.Clib.Search.{strcmp, strcmp-eq}
use gnugol.Query.{Formatter}
use Prim.Native.Nat.{Ordering}

unknown :
    (ts : List OutputType) (name : Bytes) (format : Formatter)
    → All (λ t. t.desc ≢ name) ts
    → select_format ts name format ≡ format
unfolding select_format
unknown [] name format h = refl
unknown (t ∷ ts) name format h = go (strcmp t.desc name) refl (unknown ts name format h.1)
  where
    go :
        (o : Ordering)
        → strcmp t.desc name ≡ o
        → select_format ts name format ≡ format
        → select_format (t ∷ ts) name format ≡ format
    go Ordering.lt e rest = rw e rest
    go Ordering.eq e rest = absurd (h.0 (strcmp-eq t.desc name e))
    go Ordering.gt e rest = rw e rest

known : (format : Formatter) → All (λ t. select_format output_type t.desc format ≡ t.id) output_type
unfolding select_format output_type strcmp
known format = (
  refl,
  (
    refl,
    (
      refl,
      (
        refl,
        (
          refl,
          (
            refl,
            (
              refl,
              (
                refl,
                (
                  refl,
                  (
                    refl,
                    (
                      refl,
                      (
                        refl,
                        (
                          refl,
                          (
                            refl,
                            (refl, (refl, (refl, (refl, (refl, (refl, (refl, (refl, tt)))))))),
                          ),
                        ),
                      ),
                    ),
                  ),
                ),
              ),
            ),
          ),
        ),
      ),
    ),
  ),
)

-- An option `-o` with a name of the table selects the format that stands beside the name, also
-- where the name stands in the table twice.
select_format_known :
    (i : ℕ) (t : OutputType) (format : Formatter)
    → get_elem? output_type i ≡ some t
    → select_format output_type t.desc format ≡ t.id
select_format_known i t format at =
    get_elem?-All (λ x. select_format output_type x.desc format ≡ x.id) output_type i t
      (known format) at

-- An option `-o` with a name that does not stand in the table leaves the format as it is.
select_format_unknown :
    (name : Bytes) (format : Formatter)
    → All (λ t. t.desc ≢ name) output_type
    → select_format output_type name format ≡ format
select_format_unknown name format h = unknown output_type name format h

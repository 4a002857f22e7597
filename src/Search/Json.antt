-- ===== src/Search/Json.antt =====
-- The JSON library as the plugins call it, and the macros of src/include/handy.h that take an answer
-- apart. A macro that fails prints to `stderr`, which is left out, and returns 1.
use gnugol.Base.{
  ℕ, ◌≡◌, refl, Bool, true, Option, none, some, ◌⊎◌, if◌then◌else◌, ℤ, pos, Bytes, Result, ok,
}
use gnugol.Query.{QueryOptions}

-- `json_loads` gives a value, or the line and the text of an error. `json_object_get` and
-- `json_array_get` give `none` for `NULL`, and so does `json_string_value` where the value is no
-- string.
pub record JsonLibrary : Type 1 where
  pub Json : Type 0
  pub loads : Bytes → (ℕ × Bytes) ⊎ Json
  pub object_get : Json → Bytes → Option Json
  pub is_object : Json → Bool
  pub is_array : Json → Bool
  pub is_number : Json → Bool
  pub array_size : Json → ℕ
  pub array_get : Json → ℕ → Option Json
  pub string_value : Json → Option Bytes

-- What a plugin returns, and the options.
abbrev pub Answer : Type 0
Answer = Result (ℤ × QueryOptions)

-- `return 1`
abbrev pub gave_up : QueryOptions → Answer
gave_up q = ok (pos 1, q)

module _ (j : JsonLibrary) where
  -- `GETOBJ(obj,key)`
  unfoldable pub get_obj : QueryOptions → j.Json → Bytes → (j.Json → Answer) → Answer
  get_obj q obj key body = elim (j.object_get obj key) [
    | none ↦ gave_up q
    | some value ↦ body value
  ]

  -- `GETARRAY(obj,key)`
  unfoldable pub get_array : QueryOptions → j.Json → Bytes → (j.Json → Answer) → Answer
  get_array q obj key body = elim (j.object_get obj key) [
    | none ↦ gave_up q
    | some value ↦ if j.is_array value then body value else gave_up q
  ]

  -- `GETARRAYIDX(obj,value,idx)`
  unfoldable pub get_array_idx : QueryOptions → j.Json → ℕ → (j.Json → Answer) → Answer
  get_array_idx q obj idx body = elim (j.array_get obj idx) [
    | none ↦ gave_up q
    | some value ↦ if j.is_object value then body value else gave_up q
  ]

  -- The string of a field, or `none` where there is no such field or it holds no string.
  unfoldable pub string_field : j.Json → Bytes → Option Bytes
  string_field obj key = elim (j.object_get obj key) [
    | none ↦ none
    | some value ↦ j.string_value value
  ]

  -- `GETSTRING(obj,key)`, and `jsv` of it.
  unfoldable pub get_string : QueryOptions → j.Json → Bytes → (Bytes → Answer) → Answer
  get_string q obj key body = elim (string_field obj key) [
    | none ↦ gave_up q
    | some text ↦ body text
  ]

  -- `GETNUMBER(obj,key)`
  unfoldable pub get_number : QueryOptions → j.Json → Bytes → (j.Json → Answer) → Answer
  get_number q obj key body = elim (j.object_get obj key) [
    | none ↦ gave_up q
    | some value ↦ if j.is_number value then body value else gave_up q
  ]

  -- The macros where the value is there.
  pub get_obj-some :
      (q : QueryOptions) (obj : j.Json) (key : Bytes) (value : j.Json) (body : j.Json → Answer)
      → j.object_get obj key ≡ some value
      → get_obj q obj key body ≡ body value
  unfolding get_obj
  get_obj-some q obj key value body at = rw (at, get_obj) refl

  pub get_array-some :
      (q : QueryOptions) (obj : j.Json) (key : Bytes) (value : j.Json) (body : j.Json → Answer)
      → j.object_get obj key ≡ some value
      → j.is_array value ≡ true
      → get_array q obj key body ≡ body value
  unfolding get_array
  get_array-some q obj key value body at array = rw (at, array, get_array) refl

  pub get_array_idx-some :
      (q : QueryOptions) (obj : j.Json) (idx : ℕ) (value : j.Json) (body : j.Json → Answer)
      → j.array_get obj idx ≡ some value
      → j.is_object value ≡ true
      → get_array_idx q obj idx body ≡ body value
  unfolding get_array_idx
  get_array_idx-some q obj idx value body at object = rw (at, object, get_array_idx) refl

  pub get_string-some :
      (q : QueryOptions) (obj : j.Json) (key text : Bytes) (body : Bytes → Answer)
      → string_field obj key ≡ some text
      → get_string q obj key body ≡ body text
  unfolding get_string
  get_string-some q obj key text body at = rw (at, get_string) refl

  pub get_string-none :
      (q : QueryOptions) (obj : j.Json) (key : Bytes) (body : Bytes → Answer)
      → string_field obj key ≡ none
      → get_string q obj key body ≡ gave_up q
  unfolding get_string
  get_string-none q obj key body at = rw (at, get_string) refl

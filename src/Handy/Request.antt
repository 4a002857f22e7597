-- ===== src/Handy/Request.antt =====
-- `write_response` and `jsonrequest` of src/common/handy.c, over what libcurl does.
use gnugol.Base.{
  ℕ, ◌+◌, ◌-◌, ◌*◌, ◌≤◌, ◌<◌, ◌≡◌, refl, Bool, true, false, not, ◌&&◌, ◌||◌, Option, none, some,
  List, [], ◌∷◌, ◌++◌, ltb, leb, ◌==◌, if◌then◌else◌, arith, Bytes, length, until_nul,
  length-append, append_assoc, append-nil, Bool-cases, inl, inr,
}

-- `BUFFER_SIZE`
abbrev pub buffer_size : ℕ
buffer_size = 64 * 1024

-- What `curl_easy_init` and `malloc` return, and for a URL the pieces that the write function is
-- called with, the status of a transfer that it does not stop, and the response's code.
pub record Curl : Type 0 where
  pub init : Bool
  pub malloc : Bool
  pub chunks : Bytes → List Bytes
  pub status : Bytes → ℕ
  pub code : Bytes → ℕ

-- `write_response`: what `data` holds up to `pos` afterwards, or `none` where 0 is returned, at which
-- libcurl stops with an error.
unfoldable pub write_response : Bytes → Bytes → Option Bytes
write_response held chunk =
    if leb (buffer_size - 1) (length held + length chunk) then none else some (held ++ chunk)

-- The calls of the write function.
unfoldable pub receive : Bytes → List Bytes → Option Bytes
receive held [] = some held
receive held (chunk ∷ chunks) = elim (write_response held chunk) [
  | none ↦ none
  | some longer ↦ receive longer chunks
]

-- `jsonrequest(url)`: `none` for `NULL`, or what the data reads as with the NUL behind it.
unfoldable pub jsonrequest : Curl → Bytes → Option Bytes
unfolding receive write_response
jsonrequest curl url =
    if not curl.init || not curl.malloc then none else (elim (receive [] (curl.chunks url)) [
      | none ↦ none
      | some text ↦
          if curl.status url == 0 && curl.code url == 200 then some (until_nul text) else none
    ])

-- The pieces one after the other.
unfoldable pub received : List Bytes → Bytes
received [] = []
received (chunk ∷ chunks) = chunk ++ received chunks

receive_fits :
    (held : Bytes) (chunks : List Bytes)
    → length held + length (received chunks) < 65535
    → receive held chunks ≡ some (held ++ received chunks)
unfolding receive received
receive_fits held [] fits = rw append-nil refl
receive_fits held (chunk ∷ chunks) fits =
    let sum = length-append held chunk in
    let all = length-append chunk (received chunks) in
    let small : leb 65535 (length held + length chunk) ≡ false = ground arith in
    let written : write_response held chunk ≡ some (held ++ chunk) =
      unfold write_response in rw small refl in
    rw (written, receive)
      (rw (← append_assoc held chunk (received chunks))
        (receive_fits (held ++ chunk) chunks (omega arith)))

receive_over :
    (held : Bytes) (chunks : List Bytes)
    → length held < 65535
    → 65535 ≤ length held + length (received chunks)
    → receive held chunks ≡ none
unfolding receive received
receive_over held [] room over = absurd (omega arith)
receive_over held (chunk ∷ chunks) room over =
    let sum = length-append held chunk in
    let all = length-append chunk (received chunks) in
    elim (Bool-cases (leb 65535 (length held + length chunk))) [
      | inl e ↦
          let refused : write_response held chunk ≡ none = unfold write_response in rw e refl in
          rw (refused, receive) refl
      | inr e ↦
          let written : write_response held chunk ≡ some (held ++ chunk) =
            unfold write_response in rw e refl in
          rw (written, receive) (receive_over (held ++ chunk) chunks (ground arith) (omega arith))
    ]

-- Where the handle and the buffer are there, the status is 0 and the code is 200, the request gives
-- the text that libcurl received, up to its first NUL, if it has less than 65535 bytes, and gives
-- nothing if it has 65535 or more.
pub jsonrequest-received :
    (curl : Curl) (url : Bytes)
    → curl.init ≡ true
    → curl.malloc ≡ true
    → curl.status url ≡ 0
    → curl.code url ≡ 200
    → jsonrequest curl url ≡ (
        if ltb (length (received (curl.chunks url))) 65535
        then some (until_nul (received (curl.chunks url)))
        else none)
unfolding jsonrequest
jsonrequest-received curl url init malloc status code =
    elim (Bool-cases (ltb (length (received (curl.chunks url))) 65535)) [
      | inl e ↦
          let got = receive_fits [] (curl.chunks url) (ground arith) in
          rw (e, init, malloc, got, status, code, jsonrequest) refl
      | inr e ↦
          let got = receive_over [] (curl.chunks url) (omega arith) (ground arith) in
          rw (e, init, malloc, got, jsonrequest) refl
    ]

-- ===== src/Engines/Key.antt =====
-- `gnugol_read_key` of src/common/engines.c, into an array of `*pksize` bytes.
pub mod Trim
use gnugol.Base.{
  ℕ, zero, suc, ◌+◌, ◌-◌, Bool, true, false, ◌||◌, Option, none, some, [], ◌∷◌, ◌++◌, ltb, ◌==◌,
  if◌then◌else◌, Bytes, codes, get_elem?, length, take, Result, ok, fault, overrun, assertion,
}

-- What `open` and `read` give for a path: the error number of `open`, that of `read`, or the bytes
-- that the file holds.
pub data File : Type 0 where
  unopened unreadable : ℕ → File
  opened : Bytes → File

-- The environment: `getenv("HOME")`, the files, and `SYSCONFDIR`.
pub record Environment : Type 0 where
  pub home : Option Bytes
  pub file : Bytes → File
  pub sysconfdir : Bytes

-- The result of the function: an error number, or 0 and what `key` and `*pksize` hold.
pub data KeyRead : Type 0 where
  failed : ℕ → KeyRead
  found : Bytes → KeyRead

-- `ENODATA` of Linux.
abbrev pub no_data : ℕ
no_data = 61

-- `(key[size - 1] == ' ') || (key[size - 1] == '\n')`
abbrev pub is_trailing : Option ℕ → Bool
is_trailing none = false
is_trailing (some c) = c == b' ' || c == b'\n'

-- The loop over `size`.
unfoldable pub trim : Bytes → ℕ → ℕ
trim text zero = zero
trim text (suc n) = let rest = trim text n in if is_trailing (get_elem? text n) then rest else suc n

-- `key[size] = '\0'`, and what is returned behind it.
abbrev finish : ℕ → Bytes → ℕ → Result KeyRead
finish pksize content zero = ok (failed no_data)
finish pksize content (suc n) =
    if ltb (suc n) pksize then ok (found (take (suc n) content)) else fault overrun

-- The function from the call of `read` on.
unfoldable pub key_of : ℕ → Bytes → Result KeyRead
key_of pksize content =
    let read = take pksize content in finish pksize read (trim read (length read))

abbrev cut : Bytes → Bytes
cut path = take (4096 - 1) path

abbrev home_of : Option Bytes → Bytes
home_of none = []
home_of (some path) = path

-- The two paths.
abbrev pub home_path : Environment → Bytes → Bytes
home_path env keyfile = cut (home_of env.home ++ codes "/." ++ keyfile)

abbrev etc_path : Environment → Bytes → Bytes
etc_path env keyfile = cut (env.sysconfdir ++ b'/' ∷ keyfile)

abbrev read_file : ℕ → File → Result KeyRead
read_file pksize (unopened errno) = ok (failed errno)
read_file pksize (unreadable errno) = ok (failed errno)
read_file pksize (opened content) = key_of pksize content

-- `gnugol_read_key(key,pksize,keyfile)`
unfoldable pub gnugol_read_key : Environment → ℕ → Bytes → Result KeyRead
gnugol_read_key env zero keyfile = fault assertion
gnugol_read_key env (suc n) keyfile = elim (env.file (home_path env keyfile)) [
  | unopened errno ↦ read_file (suc n) (env.file (etc_path env keyfile))
  | unreadable errno ↦ ok (failed errno)
  | opened content ↦ key_of (suc n) content
]

-- ===== src/Clib/Strings.antt =====
-- `strstr` and `strsep` of the C library, as the program calls them. A pointer into a string is the
-- text from there to its end.
use gnugol.Base.{Bool, true, false, ◌&&◌, Option, none, some, [], ◌∷◌, ◌==◌, if◌then◌else◌, Bytes}

unfoldable pub starts : Bytes → Bytes → Bool
starts text [] = true
starts [] (c ∷ cs) = false
starts (d ∷ ds) (c ∷ cs) = d == c && starts ds cs

-- `strstr(haystack,needle)`
unfoldable pub strstr : Bytes → Bytes → Option Bytes
unfolding starts
strstr [] needle = if starts [] needle then some [] else none
strstr (c ∷ cs) needle = if starts (c ∷ cs) needle then some (c ∷ cs) else strstr cs needle

-- What `strsep(&p,"\n")` returns reads as, and what it sets `p` to.
unfoldable pub line_at : Bytes → Bytes
line_at [] = []
line_at (c ∷ cs) = if c == b'\n' then [] else c ∷ line_at cs

unfoldable pub line_after : Bytes → Option Bytes
line_after [] = none
line_after (c ∷ cs) = if c == b'\n' then some cs else line_after cs

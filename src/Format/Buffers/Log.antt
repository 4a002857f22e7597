-- ===== src/Format/Buffers/Log.antt =====
-- A buffer is the concatenation of what was appended to it, until a text does not fit.
use gnugol.Base.{
  take-all, ◌+◌, ◌-◌, ◌≤◌, ◌<◌, ◌≡◌, refl, ap, true, false, some, List, [], ◌∷◌, ◌++◌, ltb, ◌==◌,
  arith, Bytes, length, take, Result, ok, fault, overrun, ◌>>=◌, length-append, append_assoc,
  append-nil, length-take,
}
use gnugol.Query.{Buffer}
use gnugol.Format.Buffers.{append, append_to, overwrite}

-- The buffer holds `text`, with room for a NUL. A buffer that nothing was appended to may read as
-- anything: `malloc` clears nothing.
pub record Holds (b : Buffer) (text : Bytes) : Type 0 where
  pub content : Bytes
  pub memory : b.s ≡ some content
  pub filled : take b.len content ≡ text
  pub counted : b.len ≡ length text
  pub room : length text < b.size

append_fits :
    (b : Buffer) (text more : Bytes)
    → Holds b text
    → length text + length more < b.size
    → (c : Buffer) × (append b more ≡ ok c)
      × Holds c (text ++ more)
      × (c.s ≡ some (text ++ more))
      × (c.size ≡ b.size)
unfolding append overwrite
append_fits b text more h fits =
    let whole : take (b.size - b.len - 1) more ≡ more =
      take-all _ more (omega (arith, h.counted)) in
    let front : length text ≤ length h.content =
      omega (arith, ap length h.filled, length-take b.len h.content, h.counted) in
    let long : ltb (length h.content) b.len ≡ false = ground (arith, h.counted) in
    let room : ltb b.len b.size ≡ true = ground (arith, h.counted, h.room) in
    (
      record b { len = b.len + length more; s = some (text ++ more) },
      rw h.memory (rw room (rw long (rw (h.filled, whole) refl))),
      record {
        content = text ++ more;
        memory = refl;
        filled = take-all _ (text ++ more) (omega (arith, length-append text more, h.counted));
        counted = omega (arith, length-append text more, h.counted);
        room = omega (arith, length-append text more);
      },
      refl,
      refl,
    )

-- The texts one after the other.
abbrev pub joined : List Bytes → Bytes
joined [] = []
joined (t ∷ ts) = t ++ joined ts

pub append_all : Buffer → List Bytes → Result Buffer
append_all b [] = ok b
append_all b (t ∷ ts) = append b t >>= λ c. append_all c ts

-- A row of appended texts that fits, with a NUL, is what the buffer holds afterwards.
pub append_all-joined :
    (b : Buffer) (text : Bytes) (ts : List Bytes)
    → Holds b text
    → length text + length (joined ts) < b.size
    → (c : Buffer) × (append_all b ts ≡ ok c) × Holds c (text ++ joined ts)
unfolding append_all
append_all-joined b text [] h fits = (b, refl, rw append-nil h)
append_all-joined b text (t ∷ ts) h fits =
    let (c, run, held, _, size) =
      append_fits b text t h (omega (arith, length-append t (joined ts))) in
    let (d, rest, done) =
      append_all-joined c (text ++ t) ts held
        (omega (arith, length-append t (joined ts), length-append text t, size)) in
    (d, rw run rest, rw append_assoc at done)

-- Where a text and its NUL do not fit by more than the NUL, the text is cut to the size, and every
-- later append writes behind the buffer.
pub append_cut :
    (b : Buffer) (text more next : Bytes)
    → Holds b text
    → b.size < length text + length more
    → (c : Buffer) × (append b more ≡ ok c)
      × (c.s ≡ some (text ++ take (b.size - length text - 1) more))
      × (append c next ≡ fault overrun)
unfolding append overwrite
append_cut b text more next h over =
    let front : length text ≤ length h.content =
      omega (arith, ap length h.filled, length-take b.len h.content, h.counted) in
    let long : ltb (length h.content) b.len ≡ false = ground (arith, h.counted) in
    let room : ltb b.len b.size ≡ true = ground (arith, h.counted, h.room) in
    let past : ltb (b.len + length more) b.size ≡ false = ground (arith, h.counted) in
    let beyond : (b.len + length more == b.size) ≡ false = ground (arith, h.counted) in
    (
      record b {
        len = b.len + length more;
        s = some (text ++ take (b.size - length text - 1) more);
      },
      rw h.memory (rw room (rw long (rw (h.filled, h.counted) refl))),
      refl,
      rw (past, append_to) (rw beyond refl),
    )

-- ===== src/Handy/Strip/Fixed.antt =====
-- A clean text passes through `strip_html` unchanged, so stripping twice is stripping once.
use mathlib.Core.List.{reverse_aux, reverse-reverse}
use gnugol.Base.{
  ℕ, ◌+◌, ◌≤◌, ◌≡◌, refl, true, false, not, ◌&&◌, Option, none, some, [], ◌∷◌, ltb, ◌==◌,
  if◌then◌else◌, arith, ap, ◌∙◌, sym, Bytes, length, reverse, ok, length-reverse, until_nul_lem,
}
use gnugol.Handy.Entities.{Utf8}
use gnugol.Handy.Strip.{
  Strip, initial, on_blank, on_period, on_other, on_semicolon, step, strip_loop, strip_html,
}
use gnugol.Handy.Strip.Bounds.{strip_html-bounded}
use gnugol.Handy.Strip.Clean.{ends_in, NoEntity, Yields-ok, returns_of_NoEntity, strip_html-Yields}
use gnugol.Handy.Strip.Texts.{is_plain, may_follow, top, clean_after, is_clean, clean_after-IsText}

after : ℕ → Strip → Strip
after c s = record s { isspace = c == b' '; inperiod = if c == b'.' then 1 else 0; out = c ∷ s.out }

-- The flags say what the last byte kept was.
record Sync (s : Strip) : Type 0 where
  shown : s.inhtml ≡ false
  outside : s.inentity ≡ false
  spaced : s.isspace ≡ ends_in b' ' s.out
  dotted : s.inperiod ≡ (if ends_in b'.' s.out then 1 else 0)

after-Sync : (c : ℕ) (s : Strip) → Sync s → Sync (after c s)
unfolding after
after-Sync c s v = record { shown = v.shown; outside = v.outside; spaced = refl; dotted = refl }

module _ (u : Utf8) (len : ℕ) (html : Bytes) (i c : ℕ) (s : Strip) (plain : is_plain c ≡ true) where
  step-after_at :
      (out : Bytes)
      → may_follow (top out) c ≡ true
      → Sync (record s { out = out })
      → length out ≤ len
      → step u len html i c (record s { out = out }) ≡ ok (after c (record s { out = out }))
  unfolding step on_semicolon on_blank on_period on_other after is_plain
  step-after_at [] follows v room = ground arith
  step-after_at (d ∷ out) follows v room = ground arith

is_plain-ne-nul : (c : ℕ) → is_plain c ≡ true → (c == 0) ≡ false
unfolding is_plain
is_plain-ne-nul c h = ground arith

clean_after-cons :
    (before : Option ℕ) (c : ℕ) (cs : Bytes)
    → clean_after before (c ∷ cs) ≡ (is_plain c && (may_follow before c && clean_after (some c) cs))
unfolding clean_after
clean_after-cons before c cs = refl

strip_loop-clean :
    (u : Utf8) (len : ℕ) (html : Bytes) (i : ℕ) (cs : Bytes) (s : Strip)
    → clean_after (top s.out) cs ≡ true
    → Sync s
    → length s.out ≡ i
    → i + length cs ≤ len
    → (t : Strip) × (strip_loop u len html i cs s ≡ ok t) × (t.out ≡ reverse_aux cs s.out)
unfolding strip_loop
strip_loop-clean u len html i [] s clean v at room = (s, refl, refl)
strip_loop-clean u len html i (c ∷ cs) s clean v at room =
    let split = sym (clean_after-cons (top s.out) c cs) ∙ clean in
    let plain : is_plain c ≡ true = ground (arith, split) in
    let go : (ltb i len && not (c == 0)) ≡ true = ground (arith, is_plain-ne-nul c plain) in
    let moved =
      step-after_at u len html i c s plain s.out (ground (arith, split)) v (omega arith) in
    let (t, run, kept) =
      strip_loop-clean u len html (i + 1) cs (after c s) (unfold after in ground (arith, split))
        (after-Sync c s v) (unfold after in omega arith) (omega arith) in
    (t, rw (go, moved) run, kept ∙ unfold after in refl)

-- A clean text of at most `len` bytes passes through `strip_html` unchanged.
strip_html_of_clean :
    (u : Utf8) (len : ℕ) (text : Bytes)
    → is_clean text ≡ true
    → length text ≤ len
    → strip_html u len text ≡ ok (length text, text)
unfolding strip_html
strip_html_of_clean u len text clean room =
    let (t, run, kept) =
      strip_loop-clean u len text 0 text initial clean start refl (omega arith) in
    let back : reverse t.out ≡ text = ap reverse kept ∙ reverse-reverse text in
    rw run (
      rw back (
        rw (until_nul_lem text (clean_after-IsText none text clean))
          (ap (λ n. ok (n, text)) (sym (length-reverse t.out) ∙ ap length back))))
  where
    start : Sync initial
    start = record { shown = refl; outside = refl; spaced = refl; dotted = refl }

-- On a text with no '&', `strip_html` leaves no array and returns a clean text and its length: no
-- tags, newlines, runs of blanks or periods, and no blank at the start. Stripping that text again
-- changes nothing.
pub strip_html-idempotent :
    (u : Utf8) (len : ℕ) (html : Bytes)
    → NoEntity html
    → (r : ℕ × Bytes) × (strip_html u len html ≡ ok r)
      × (is_clean r.1 ≡ true)
      × (r.0 ≡ length r.1)
      × (strip_html u len r.1 ≡ ok r)
strip_html-idempotent u len html pure =
    let (r, run, (within, _, _)) =
      returns_of_NoEntity len html _ (strip_html u len html) pure (strip_html-bounded u len html) in
    let (clean, size) =
      Yields-ok _ (strip_html u len html) r run (strip_html-Yields u len html pure) in
    (
      r,
      run,
      clean,
      size,
      strip_html_of_clean u len r.1 clean (omega arith) ∙ ap (λ (n : ℕ). ok (n, r.1)) (sym size),
    )

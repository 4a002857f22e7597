-- ===== src/Fit/Refused.antt =====
-- What `fit_buffer` returns.
use gnugol.Base.{
  if_false, ℕ, zero, suc, ◌-◌, ◌*◌, ◌≡◌, refl, ap, ◌∙◌, Bool, true, false, ltb, ◌==◌, if◌then◌else◌,
  ℤ, pos, negsuc, above, Result, ok, fault, bad_read, overrun, underrun, assertion, After,
  After-bind, After-next, After-if, arith,
}
use gnugol.Fit.Faults.{Expected, fit_loop-Expected}
use gnugol.Fit.{
  Results, count, put_sections, Compressed, returned, fell_off, compress_results, is_compressed,
  fit_loop, fit_buffer,
}

-- `compress_results` gives no value above 0.
abbrev NotAbove : Compressed → Type 0
NotAbove (returned n) = above n 0 ≡ false
NotAbove (fell_off b) = Unit

abbrev Refuses : Bool → Type 0
Refuses fits = fits ≡ false

compress_results-NotAbove : (q : Results) (size : ℕ) → After NotAbove (compress_results q size)
unfolding compress_results
compress_results-NotAbove q size = After-next NotAbove (count q (q.nresults - 1) 0 0) _ λ nbytes.
    After-if NotAbove (nbytes == 0) (ok (returned (pos 0))) _ refl (
      After-if NotAbove (ltb (4 * size) nbytes) (ok (returned (negsuc 0))) _ refl
        (After-next NotAbove (put_sections _ q) _ λ b. tt))

is_compressed-Refuses : (c : Compressed) → NotAbove c → After Refuses (is_compressed c)
unfolding is_compressed
is_compressed-Refuses (returned n) h = h
is_compressed-Refuses (fell_off b) h = tt

fit_loop-zero : (q : Results) (results : ℕ) → After (λ n. n ≡ pos 0) (fit_loop q results)
unfolding fit_loop
fit_loop-zero q zero = refl
fit_loop-zero q (suc results) =
    After-bind (λ n. n ≡ pos 0) NotAbove (compress_results q (suc results)) _
      (compress_results-NotAbove q (suc results))
      λ c h.
        After-bind (λ n. n ≡ pos 0) Refuses (is_compressed c) _ (is_compressed-Refuses c h)
          λ fits k. rw k (fit_loop-zero q results)

-- How often the loop can go round.
abbrev pub rounds : ℕ → Results → ℕ
rounds results q = if ltb q.nresults results then q.nresults else results

abbrev pub is_zero : Result ℕ → Bool
is_zero (ok n) = n == 0
is_zero (fault why) = false

zero-count : (m : Result ℕ) → is_zero m ≡ true → m ≡ ok 0
zero-count (ok n) h = let none : n ≡ 0 = ground arith in ap ok none
zero-count (fault why) h = cc

compress_nothing :
    (q : Results) (size : ℕ)
    → count q (q.nresults - 1) 0 0 ≡ ok 0
    → compress_results q size ≡ ok (returned (pos 0))
unfolding compress_results
compress_nothing q size h = rw h refl

fit_nothing :
    (q : Results) (results : ℕ)
    → count q (q.nresults - 1) 0 0 ≡ ok 0
    → fit_loop q results ≡ ok (pos 0)
unfolding fit_loop is_compressed
fit_nothing q zero h = refl
fit_nothing q (suc results) h = rw (compress_nothing q (suc results) h) (fit_nothing q results h)

-- What `fit_buffer` may do where there is something to fit: it tells that nothing fits, or it reads
-- what is not there or leaves an array.
abbrev pub NotFit : Result ℤ → Type 0
NotFit (ok n) = n ≡ pos 0
NotFit (fault bad_read) = Unit
NotFit (fault overrun) = Unit
NotFit (fault underrun) = ⊥
NotFit (fault assertion) = ⊥

-- By whether the loop goes round at all, and whether any bytes are counted.
abbrev pub Unfit : (idle empty : Bool) → Result ℤ → Type 0
Unfit true empty m = m ≡ fault bad_read
Unfit false true m = m ≡ ok (pos 0)
Unfit false false m = NotFit m

not_fit : (m : Result ℤ) → After (λ n. n ≡ pos 0) m → Expected m → NotFit m
not_fit (ok n) h k = h
not_fit (fault bad_read) h k = tt
not_fit (fault overrun) h k = tt
not_fit (fault underrun) h k = k
not_fit (fault assertion) h k = k

fit_buffer-round :
    (results : ℕ) (q : Results)
    → (rounds results q == 0) ≡ false
    → fit_buffer results q ≡ fit_loop q (rounds results q)
unfolding fit_buffer
fit_buffer-round results q busy = if_false (rounds results q == 0) (fault bad_read) _ busy

unfit :
    (results : ℕ) (q : Results) (idle empty : Bool)
    → (rounds results q == 0) ≡ idle
    → is_zero (count q (q.nresults - 1) 0 0) ≡ empty
    → Unfit idle empty (fit_buffer results q)
unfit results q true empty h k = unfold fit_buffer in rw h refl
unfit results q false true h k =
    fit_buffer-round results q h
    ∙ fit_nothing q (rounds results q) (zero-count (count q (q.nresults - 1) 0 0) k)
unfit results q false false h k = rw (fit_buffer-round results q h) (
    not_fit (fit_loop q (rounds results q)) (fit_loop-zero q (rounds results q))
      (fit_loop-Expected q (rounds results q)))

-- `fit_buffer` never reports that results fit. Without results, or where none are asked for, it reads
-- its result uninitialised; where the bytes that are counted are none, it returns 0; and otherwise it
-- returns 0, or it reads what is not there, such as the value that `compress_results` does not
-- return, or it leaves an array.
pub fit_buffer-Unfit :
    (results : ℕ) (q : Results)
    → Unfit (rounds results q == 0) (is_zero (count q (q.nresults - 1) 0 0)) (fit_buffer results q)
fit_buffer-Unfit results q =
    unfit results q (rounds results q == 0) (is_zero (count q (q.nresults - 1) 0 0)) refl refl

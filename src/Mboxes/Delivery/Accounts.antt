-- ===== src/Mboxes/Delivery/Accounts.antt =====
-- What a delivery does to the counters of message limits, and how the parts of one add up.
use android_vendor_sobjectiz.Common.{
  ℕ, ◌+◌, ◌≤◌, ◌<◌, ◌≡◌, ◌≢◌, refl, sym, arith, inl, inr, Bool-cases, ◌==◌, one_if, Option, none,
  some, List, [], ◌∷◌, ◌++◌,
}
use android_vendor_sobjectiz.Mchain.Demand.{InvocationType, event, service_request}
use android_vendor_sobjectiz.Mboxes.Subscriber.{}
use android_vendor_sobjectiz.Mboxes.Limits.{ControlBlock}
use android_vendor_sobjectiz.Mboxes.Delivery.{
  Effect, pushed, lost, Ending, returned, thrown, push_exception, aborted, null_dereference,
  out_of_fuel, Counts, Done, ends, after, inc, dec, set_count, uint_values, roll_back, guarded,
  dispatch_wrapper, and_then, wrapped,
}

-- A demand that is pushed, or lost, with the limit `k` is counted there.
abbrev pub by_limit : ℕ → Option ℕ → ℕ
by_limit k none = 0
by_limit k (some j) = one_if (j == k)

abbrev pub takes : ℕ → Effect → ℕ
takes k (pushed inv a l box ty msg) = by_limit k l
takes k (lost a l) = by_limit k l
takes k _ = 0

abbrev pub taken : ℕ → List Effect → ℕ
taken k [] = 0
taken k (e ∷ es) = takes k e + taken k es

taken-append : (k : ℕ) (es fs : List Effect) → taken k (es ++ fs) ≡ taken k es + taken k fs
taken-append k [] fs = omega arith
taken-append k (e ∷ es) fs = omega (arith, taken-append k es fs)

module _ (block : ℕ → ControlBlock) where
  abbrev pub Fits : Counts → Type 0
  Fits c = (k : ℕ) → c k ≤ (block k).limit

  -- Each counter has risen by its demands and is within its limit, and the fuel was enough.
  pub record Accounts (c : Counts) (d : Done) : Type 0 where
    pub counted : (k : ℕ) → d.counts k ≡ c k + taken k d.effects
    pub fits : Fits d.counts
    pub goes_on : d.ending ≢ out_of_fuel

  pub nothing_taken :
      (e : Ending) (es : List Effect) (c : Counts)
      → Fits c
      → ((k : ℕ) → taken k es ≡ 0)
      → e ≢ out_of_fuel
      → Accounts c (ends e es c)
  nothing_taken e es c f n g = record { counted = λ k. omega (arith, n k); fits = f; goes_on = g }

  pub after-Accounts :
      (es : List Effect) (c : Counts) (d : Done)
      → ((k : ℕ) → taken k es ≡ 0)
      → Accounts c d
      → Accounts c (after es d)
  after-Accounts es c d n a = record {
    counted = λ k. omega (arith, n k, a.counted k, taken-append k es d.effects);
    fits = a.fits;
    goes_on = a.goes_on;
  }

  pub wrapper-Accounts : (c : Counts) (d : Done) → Accounts c d → Accounts c (dispatch_wrapper d)
  unfolding dispatch_wrapper
  wrapper-Accounts c d a = by_ending d.ending a.goes_on
    where
      by_ending :
          (e : Ending) → e ≢ out_of_fuel → Accounts c (dispatch_wrapper (record d { ending = e }))
      by_ending returned g = record { counted = a.counted; fits = a.fits; goes_on = g }
      by_ending (thrown r) g = record {
        counted = λ k. omega (arith, a.counted k, taken-append k d.effects (Effect.replied r ∷ []));
        fits = a.fits;
        goes_on = λ e. cc;
      }
      by_ending push_exception g = record {
        counted = λ k.
            omega (arith, a.counted k, taken-append k d.effects (Effect.replied_exception ∷ []));
        fits = a.fits;
        goes_on = λ e. cc;
      }
      by_ending aborted g = record { counted = a.counted; fits = a.fits; goes_on = g }
      by_ending null_dereference g = record { counted = a.counted; fits = a.fits; goes_on = g }
      by_ending out_of_fuel g = absurd (g refl)

  pub and_then-Accounts :
      (c : Counts) (d : Done) (next : Counts → Done)
      → Accounts c d
      → ((c' : Counts) → Fits c' → Accounts c' (next c'))
      → Accounts c (and_then d next)
  unfolding and_then
  and_then-Accounts c d next a h = by_ending d.ending a.goes_on
    where
      by_ending :
          (e : Ending) → e ≢ out_of_fuel → Accounts c (and_then (record d { ending = e }) next)
      by_ending returned g =
          let b = h d.counts a.fits in
          record {
            counted = λ k.
                omega (
                  arith,
                  a.counted k,
                  b.counted k,
                  taken-append k d.effects (next d.counts).effects,
                );
            fits = b.fits;
            goes_on = b.goes_on;
          }
      by_ending (thrown r) g = record { counted = a.counted; fits = a.fits; goes_on = g }
      by_ending push_exception g = record { counted = a.counted; fits = a.fits; goes_on = g }
      by_ending aborted g = record { counted = a.counted; fits = a.fits; goes_on = g }
      by_ending null_dereference g = record { counted = a.counted; fits = a.fits; goes_on = g }
      by_ending out_of_fuel g = absurd (g refl)

  pub wrapped-Accounts :
      (inv : InvocationType) (c : Counts) (d : Done) → Accounts c d → Accounts c (wrapped inv d)
  unfolding wrapped
  wrapped-Accounts event c d a = a
  wrapped-Accounts service_request c d a = wrapper-Accounts c d a

  pub guarded-none : (c : Counts) (d : Done) → Accounts c d → Accounts c (guarded none d)
  unfolding guarded roll_back
  guarded-none c d a = by_ending d.ending a.goes_on
    where
      by_ending :
          (e : Ending) → e ≢ out_of_fuel → Accounts c (guarded none (record d { ending = e }))
      by_ending returned g = record { counted = a.counted; fits = a.fits; goes_on = g }
      by_ending _ g = record { counted = a.counted; fits = a.fits; goes_on = λ h. cc }

  -- What is counted from counters that agree is counted from these.
  pub same_counts :
      (c c' : Counts) (d : Done) → ((k : ℕ) → c' k ≡ c k) → Accounts c' d → Accounts c d
  same_counts c c' d e a = record {
    counted = λ k. omega (arith, e k, a.counted k);
    fits = a.fits;
    goes_on = a.goes_on;
  }

  -- The counter after one more, and after that one is taken back.
  pub up-Fits :
      (k : ℕ) (c : Counts)
      → (block k).limit + 1 < uint_values
      → c k < (block k).limit
      → Fits c
      → Fits (set_count k (inc (c k)) c)
  up-Fits k c s r f j = elim (Bool-cases (k == j)) [
    | inl e ↦ let is_j : k ≡ j = ground arith in rw e (rw (sym is_j) (ground arith))
    | inr e ↦ rw e (f j)
  ]

  up-counted :
      (k j : ℕ) (c : Counts)
      → c k + 1 < uint_values
      → set_count k (inc (c k)) c j ≡ c j + one_if (k == j)
  up-counted k j c s = ground arith

  pub back-counted :
      (k j : ℕ) (c : Counts)
      → c k + 1 < uint_values
      → set_count k (dec (inc (c k))) (set_count k (inc (c k)) c) j ≡ c j
  back-counted k j c s = ground arith

  -- The test itself counts past the limit for a moment.
  over-counted :
      (k j : ℕ) (c : Counts)
      → c k + 1 < uint_values
      → set_count k (dec (set_count k (inc (c k)) c k)) (set_count k (inc (c k)) c) j ≡ c j
  over-counted k j c s = ground arith

  module _ (k : ℕ) (c : Counts) (s : (block k).limit + 1 < uint_values) (r : c k < (block k).limit)
      (f : Fits c) where
    pub kept-Accounts :
        (es : List Effect)
        → ((j : ℕ) → taken j es ≡ one_if (k == j))
        → Accounts c (guarded (some k) (ends returned es (set_count k (inc (c k)) c)))
    unfolding guarded
    kept-Accounts es n = record {
      counted = λ j. omega (arith, n j, up-counted k j c (omega arith));
      fits = up-Fits k c s r f;
      goes_on = λ h. cc;
    }

    pub back-Accounts :
        Accounts c (guarded (some k) (ends push_exception [] (set_count k (inc (c k)) c)))
    unfolding guarded roll_back
    back-Accounts = record {
      counted = λ j. omega (arith, over-counted k j c (omega arith));
      fits = λ j. rw (over-counted k j c (omega arith)) (f j);
      goes_on = λ h. cc;
    }

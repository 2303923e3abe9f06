-- ===== src/Subscriptions/Lookup.antt =====
-- Contents of a subscription storage: the handler of a key, and keys that are unique.
use android_vendor_sobjectiz.Common.{
  ℕ, ◌≡◌, ◌≤◌, ◌<◌, ◌==◌, Bool, not, ◌&&◌, none, some, List, [], ◌∷◌, arith, refl, sym, ◌∙◌,
  Option-cases, inl, inr,
}
use android_vendor_sobjectiz.Subscriptions.Data.{Info, same_key}
use android_vendor_sobjectiz.Subscriptions.Content.{
  count, without, lookup, Same, IsUnique, create_content, count-le, count-without,
}

module _ (m t s : ℕ) where
  abbrev handled : ℕ → Info → Bool
  handled h i = same_key m t s i && (i.handler == h)

  lookup-some : (h : ℕ) (xs : List Info) → lookup m t s xs ≡ some h → 0 < count (handled h) xs
  lookup-some h [] e = absurd cc
  lookup-some h (x ∷ xs) e = ground (arith, lookup-some h xs)

  handled-le : (h : ℕ) (xs : List Info) → count (handled h) xs ≤ count (same_key m t s) xs
  handled-le h xs = count-le (handled h) (same_key m t s) xs (λ i e. ground arith)

  some-lookup :
      (h : ℕ) (xs : List Info)
      → count (same_key m t s) xs ≤ 1
      → 0 < count (handled h) xs
      → lookup m t s xs ≡ some h
  some-lookup h [] u p = absurd (omega arith)
  some-lookup h (x ∷ xs) u p = ground (arith, some-lookup h xs, handled-le h xs)

  lookup-none : (xs : List Info) → lookup m t s xs ≡ none → count (same_key m t s) xs ≡ 0
  lookup-none [] e = refl
  lookup-none (x ∷ xs) e = ground (arith, lookup-none xs)

  pub none-lookup : (xs : List Info) → count (same_key m t s) xs ≡ 0 → lookup m t s xs ≡ none
  none-lookup [] e = refl
  none-lookup (x ∷ xs) e = ground (arith, none-lookup xs)

  pub Same-lookup :
      (xs ys : List Info) → Same xs ys → IsUnique ys → lookup m t s xs ≡ lookup m t s ys
  Same-lookup xs ys h u = elim (Option-cases (lookup m t s xs)) [
    | inl e ↦ e ∙ sym (none-lookup ys (sym (h (same_key m t s)) ∙ lookup-none xs e))
    | inr (k, e) ↦
        e ∙ sym (some-lookup k ys (u m t s) (omega (arith, lookup-some k xs e, h (handled k))))
  ]

pub Same-IsUnique : (xs ys : List Info) → Same xs ys → IsUnique ys → IsUnique xs
Same-IsUnique xs ys h u m t s = omega (arith, h (same_key m t s), u m t s)

pub without-IsUnique : (Q : Info → Bool) (xs : List Info) → IsUnique xs → IsUnique (without Q xs)
without-IsUnique Q xs u m t s =
    let le =
      count-le (λ i. same_key m t s i && not (Q i)) (same_key m t s) xs (λ i e. ground arith) in
    omega (arith, u m t s, le, count-without (same_key m t s) Q xs)

pub create_content-IsUnique :
    (i : Info) (b : Bool) (xs : List Info) → IsUnique xs → IsUnique (create_content i b xs)
create_content-IsUnique i b xs u m t s = ground (arith, u m t s)

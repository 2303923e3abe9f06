-- ===== src/Subscriptions/Equivalence.antt =====
-- Any two storages that keep the promises of a subscription storage give the same replies.
use android_vendor_sobjectiz.Common.{ℕ, ◌≡◌, Bool, Option, List, [], ◌∷◌, refl, sym, ap, ap₂, ◌∙◌}
use android_vendor_sobjectiz.Subscriptions.Data.{Info, MboxCall, Reply, same_key, is_same_mbox_msg}
use android_vendor_sobjectiz.Subscriptions.Content.{
  Same, Same-length, Same-without, Same-create_content, Same-create_reply, Same-drop_calls,
  Same-drop_all_calls,
}
use android_vendor_sobjectiz.Subscriptions.Lookup.{Same-lookup}
use android_vendor_sobjectiz.Subscriptions.Storage.{StorageOps, StorageLaws}
use android_vendor_sobjectiz.Subscriptions.Adaptive
use android_vendor_sobjectiz.Subscriptions.Adaptive.Laws
use android_vendor_sobjectiz.Subscriptions.VectorBased
use android_vendor_sobjectiz.Subscriptions.MapBased
use android_vendor_sobjectiz.Subscriptions.MapBased.Laws as MapLaws
use android_vendor_sobjectiz.Subscriptions.VectorBased.Laws as VectorLaws

-- What an agent does with its storage.
pub data Request : Type 0 where
  create_event_subscription : Info → ℕ → Bool → Request
  drop_subscription : ℕ → ℕ → ℕ → Request
  drop_subscription_for_all_states : ℕ → ℕ → Request
  find_handler : ℕ → ℕ → ℕ → Request
  query_subscriptions_count drop_content : Request

pub data Answer : Type 0 where
  created : Reply → Answer
  dropped : List MboxCall → Answer
  found : Option ℕ → Answer
  counted : ℕ → Answer
  done : Answer

module _ {S : Type 0} (ops : StorageOps S) where
  unfoldable pub answer : S → Request → S × Answer
  answer s (create_event_subscription i l b) =
      let r = ops.create_event_subscription i l b s in (r.0, created r.1)
  answer s (drop_subscription m t k) = let r = ops.drop_subscription m t k s in (r.0, dropped r.1)
  answer s (drop_subscription_for_all_states m t) =
      let r = ops.drop_subscription_for_all_states m t s in (r.0, dropped r.1)
  answer s (find_handler m t k) = (s, found (ops.find_handler m t k s))
  answer s query_subscriptions_count = (s, counted (ops.query_subscriptions_count s))
  answer s drop_content = (ops.drop_content s, done)

  unfoldable pub answers : S → List Request → List Answer
  answers s [] = []
  answers s (r ∷ rs) = (answer s r).1 ∷ answers (answer s r).0 rs

module _ {S T : Type 0} {ops : StorageOps S} {ops' : StorageOps T} (laws : StorageLaws ops)
    (laws' : StorageLaws ops') where
  pub record IsLike (s : S) (t : T) : Type 0 where
    pub valid : laws.IsValid s
    pub valid' : laws'.IsValid t
    pub same : Same (ops.query_content s) (ops'.query_content t)

  abbrev IsAlike : S × Answer → T × Answer → Type 0
  IsAlike r r' = IsLike r.0 r'.0 × (r.1 ≡ r'.1)

  answer-IsAlike :
      (s : S) (t : T) (r : Request) → IsLike s t → IsAlike (answer ops s r) (answer ops' t r)
  unfolding answer
  answer-IsAlike s t (create_event_subscription i l b) k =
      let (v, e, c) = laws.create_lem i l b s k.valid in
      let (v', e', c') = laws'.create_lem i l b t k.valid' in
      (
        record {
          valid = v;
          valid' = v';
          same = λ P. c P ∙ (Same-create_content i b _ _ k.same P ∙ sym (c' P));
        },
        ap created (e ∙ (Same-create_reply i l b _ _ k.same ∙ sym e')),
      )
  answer-IsAlike s t (drop_subscription m n q) k =
      let (v, e, c) = laws.drop_lem m n q s k.valid in
      let (v', e', c') = laws'.drop_lem m n q t k.valid' in
      (
        record {
          valid = v;
          valid' = v';
          same = λ P. c P ∙ (Same-without (same_key m n q) _ _ k.same P ∙ sym (c' P));
        },
        ap dropped (e ∙ (Same-drop_calls m n q _ _ k.same ∙ sym e')),
      )
  answer-IsAlike s t (drop_subscription_for_all_states m n) k =
      let (v, e, c) = laws.drop_all_lem m n s k.valid in
      let (v', e', c') = laws'.drop_all_lem m n t k.valid' in
      (
        record {
          valid = v;
          valid' = v';
          same = λ P. c P ∙ (Same-without (is_same_mbox_msg m n) _ _ k.same P ∙ sym (c' P));
        },
        ap dropped (e ∙ (Same-drop_all_calls m n _ _ k.same ∙ sym e')),
      )
  answer-IsAlike s t (find_handler m n q) k = (
    k,
    ap found (
        laws.find_lem m n q s k.valid
        ∙ (Same-lookup m n q _ _ k.same (laws'.unique t k.valid')
            ∙ sym (laws'.find_lem m n q t k.valid'))),
  )
  answer-IsAlike s t query_subscriptions_count k = (
    k,
    ap counted
        (laws.count_lem s k.valid ∙ (Same-length _ _ k.same ∙ sym (laws'.count_lem t k.valid'))),
  )
  answer-IsAlike s t drop_content k =
      let (v, e) = laws.drop_content_lem s k.valid in
      let (v', e') = laws'.drop_content_lem t k.valid' in
      (record { valid = v; valid' = v'; same = λ P. rw (e, e') refl }, refl)

  pub answers-same :
      (s : S) (t : T) (rs : List Request) → IsLike s t → answers ops s rs ≡ answers ops' t rs
  unfolding answers
  answers-same s t [] k = refl
  answers-same s t (r ∷ rs) k =
      let (k', e) = answer-IsAlike s t r k in
      ap₂ ◌∷◌ e (answers-same (answer ops s r).0 (answer ops' t r).0 rs k')

-- The storage after the requests.
unfoldable pub after : {S : Type 0} → StorageOps S → S → List Request → S
after ops s [] = s
after ops s (r ∷ rs) = after ops (answer ops s r).0 rs

-- Whatever two storages an adaptive one is made of and whatever its threshold, if they keep the
-- promises of a subscription storage and are empty, it answers every sequence of requests as the
-- storage over a vector does.
pub adaptive-vector :
    {A B : Type 0} {small : StorageOps A} {large : StorageOps B} (sl : StorageLaws small)
    (ll : StorageLaws large) (n : ℕ) (x : A) (y : B) (rs : List Request)
    → sl.IsValid x
    → ll.IsValid y
    → small.query_content x ≡ []
    → large.query_content y ≡ []
    → answers (Adaptive.ops small large) (Adaptive.make n x y) rs ≡ answers VectorBased.ops [] rs
adaptive-vector sl ll n x y rs vx vy ex ey =
    let (v, e) = Laws.make-IsValid sl ll n x y vx vy ex ey in
    answers-same (Laws.laws sl ll) VectorLaws.laws (Adaptive.make n x y) [] rs (record {
      valid = v;
      valid' = VectorLaws.make-IsValid.0;
      same = λ P. rw (e, VectorLaws.make-IsValid.1) refl;
    })

-- An empty storage over a map answers every sequence of requests as an empty one over a vector does.
pub map-vector : (rs : List Request) → answers MapBased.ops [] rs ≡ answers VectorBased.ops [] rs
map-vector rs = answers-same MapLaws.laws VectorLaws.laws [] [] rs (record {
  valid = MapLaws.make-IsValid.0;
  valid' = VectorLaws.make-IsValid.0;
  same = λ P. rw (MapLaws.make-IsValid.1, VectorLaws.make-IsValid.1) refl;
})

-- ===== src/Mboxes/Local/Interests.antt =====
-- What the calls of a local mbox say about an agent and a type: its subscription with the limit, and
-- its filter. The entry of the agent in the mbox is a function of these, for calls that are allowed.
use android_vendor_sobjectiz.Common.{
  ℕ, ◌≡◌, ◌==◌, ◌&&◌, if◌then◌else◌, Option, none, some, List, [], ◌∷◌,
}
use android_vendor_sobjectiz.Mboxes.Subscriber.{
  SubscriberInfo, only_subscriptions, only_filter, subscriptions_and_filter,
}
use android_vendor_sobjectiz.Mboxes.Local.{
  MessagesTable, subscribe_event_handler, unsubscribe_event_handlers, set_delivery_filter,
  drop_delivery_filter,
}

-- A subscription carries the control block of a limit or none.
pub record Interest : Type 0 where
  pub subscription : Option (Option ℕ)
  pub filter : Option ℕ

abbrev pub Interests : Type 0
Interests = ℕ → ℕ → Interest

abbrev pub uninterested : Interests
uninterested t a = record { subscription = none; filter = none }

abbrev pub info_of : ℕ → Option (Option ℕ) → Option ℕ → Option SubscriberInfo
info_of a none none = none
info_of a (some l) none =
    some (record { agent = a; limit = l; filter = none; state = only_subscriptions })
info_of a none (some f) =
    some (record { agent = a; limit = none; filter = some f; state = only_filter })
info_of a (some l) (some f) =
    some (record { agent = a; limit = l; filter = some f; state = subscriptions_and_filter })

pub data Request : Type 0 where
  subscribe : ℕ → Option ℕ → ℕ → Request
  unsubscribe : ℕ → ℕ → Request
  filter_by : ℕ → ℕ → ℕ → Request
  unfilter : ℕ → ℕ → Request

abbrev pub request : (ℕ → ℕ) → Request → MessagesTable → MessagesTable
request p (subscribe t l a) b = subscribe_event_handler p t l a b
request p (unsubscribe t a) b = unsubscribe_event_handlers p t a b
request p (filter_by t f a) b = set_delivery_filter p t f a b
request p (unfilter t a) b = drop_delivery_filter p t a b

abbrev pub at : ℕ → ℕ → Interest → Interests → Interests
at t a n s u b = if t == u && a == b then n else s u b

abbrev pub noted : Request → Interests → Interests
noted (subscribe t l a) s = at t a (record (s t a) { subscription = some l }) s
noted (unsubscribe t a) s = at t a (record (s t a) { subscription = none }) s
noted (filter_by t f a) s = at t a (record (s t a) { filter = some f }) s
noted (unfilter t a) s = at t a (record (s t a) { filter = none }) s

-- No second subscription while there is no filter, and no second filter while there is no
-- subscription.
abbrev pub IsAllowed : Request → Interests → Type 0
IsAllowed (subscribe t l a) s = (s t a).filter ≡ none → (s t a).subscription ≡ none
IsAllowed (filter_by t f a) s = (s t a).subscription ≡ none → (s t a).filter ≡ none
IsAllowed (unsubscribe t a) s = Unit
IsAllowed (unfilter t a) s = Unit

abbrev pub AreAllowed : List Request → Interests → Type 0
AreAllowed [] s = Unit
AreAllowed (r ∷ rs) s = IsAllowed r s × AreAllowed rs (noted r s)

abbrev pub requests : (ℕ → ℕ) → List Request → MessagesTable → MessagesTable
requests p [] b = b
requests p (r ∷ rs) b = requests p rs (request p r b)

abbrev pub noted_all : List Request → Interests → Interests
noted_all [] s = s
noted_all (r ∷ rs) s = noted_all rs (noted r s)

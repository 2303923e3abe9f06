-- ===== src/Mchain/Queue/Preallocated/Ring.antt =====
-- The ring of limited_preallocated_demand_queue read as a list: the slots from the head on.
use native.Mathlib.Nat.{mod-mod, mod-eq_of_lt, mod-add-mod, mod-eq-sub-mod}
use native.Mathlib.Decide.{dec_lt}
use android_vendor_sobjectiz.Common.{
  ℕ, zero, suc, ◌≡◌, ◌≢◌, ◌⊎◌, inl, inr, ◌+◌, ◌-◌, ◌%◌, ◌≤◌, ◌<◌, refl, sym, ap, ap₂, List, [], ◌∷◌,
  ◌++◌, ◌∙◌, length, get_or, set, get_or-set_ne, replicate, arith,
}
use android_vendor_sobjectiz.Mchain.Demand.{Demand, default_demand}

pub slots : List Demand → ℕ → ℕ → ℕ → List Demand
slots s m h zero = []
slots s m h (suc n) = get_or s (h % m) default_demand ∷ slots s m (h + 1) n

mod_cong_suc : (a b m : ℕ) → a % m ≡ b % m → (a + 1) % m ≡ (b + 1) % m
mod_cong_suc a b m e = sym (mod-add-mod a m 1) ∙ ap (λ t. (t + 1) % m) e ∙ mod-add-mod b m 1

-- Below twice the modulus, the remainder subtracts it at most once.
pub mod_once : (x m : ℕ) → x < m + m → ((x < m) × (x % m ≡ x)) ⊎ ((m ≤ x) × (x % m ≡ x - m))
mod_once x m h = elim (dec_lt x m) [
  | yes p ↦ inl (p, mod-eq_of_lt p)
  | no p ↦
      let le : m ≤ x = omega arith in
      let below : x - m < m = omega arith in inr (le, mod-eq-sub-mod le ∙ mod-eq_of_lt below)
]

slots_cong : (s : List Demand) (m a b n : ℕ) → a % m ≡ b % m → slots s m a n ≡ slots s m b n
unfolding slots
slots_cong s m a b zero e = refl
slots_cong s m a b (suc n) e =
    ap₂ (λ i r. get_or s i default_demand ∷ r) e
      (slots_cong s m (a + 1) (b + 1) n (mod_cong_suc a b m e))

pub slots-mod : (s : List Demand) (m h n : ℕ) → slots s m (h % m) n ≡ slots s m h n
slots-mod s m h n = slots_cong s m (h % m) h n (mod-mod h m)

-- A write to a slot that is not read is not seen.
pub slots-set_ne :
    (s : List Demand) (m h n i : ℕ) (v : Demand)
    → ((k : ℕ) → k < n → i ≢ (h + k) % m)
    → slots (set s i v) m h n ≡ slots s m h n
unfolding slots
slots-set_ne s m h zero i v apart = refl
slots-set_ne s m h (suc n) i v apart =
    ap₂ ◌∷◌ (get_or-set_ne s i (h % m) v default_demand here) (slots-set_ne s m (h + 1) n i v later)
  where
    here : i ≢ h % m
    here e = apart 0 (omega arith) (e ∙ ap (λ t. t % m) (omega arith))

    later : (k : ℕ) → k < n → i ≢ (h + 1 + k) % m
    later k lt e = apart (k + 1) (omega arith) (e ∙ ap (λ t. t % m) (omega arith))

-- One slot more is one demand more at the end.
pub slots-suc :
    (s : List Demand) (m h n : ℕ)
    → slots s m h (suc n) ≡ slots s m h n ++ get_or s ((h + n) % m) default_demand ∷ []
unfolding slots
slots-suc s m h zero = ap (λ i. get_or s (i % m) default_demand ∷ []) (omega arith)
slots-suc s m h (suc n) =
    ap (◌∷◌ (get_or s (h % m) default_demand)) (slots-suc s m (h + 1) n ∙ last)
  where
    last :
        slots s m (h + 1) n ++ get_or s ((h + 1 + n) % m) default_demand ∷ []
        ≡ slots s m (h + 1) n ++ get_or s ((h + suc n) % m) default_demand ∷ []
    last = ap (λ i. slots s m (h + 1) n ++ get_or s (i % m) default_demand ∷ []) (omega arith)

-- Two slots of a ring with a head inside it are apart.
pub slot_apart : (m h j k : ℕ) → h < m → j < m → k < m → j ≢ k → (h + j) % m ≢ (h + k) % m
slot_apart m h j k hm jm km ne e =
    ne (omega (arith, mod_once (h + j) m (omega arith), mod_once (h + k) m (omega arith), e))

pub length-slots : (s : List Demand) (m h n : ℕ) → length (slots s m h n) ≡ n
unfolding slots
length-slots s m h zero = refl
length-slots s m h (suc n) = ap suc (length-slots s m (h + 1) n)

pub get_or-replicate : (n i : ℕ) (d : Demand) → get_or (replicate n d) i d ≡ d
get_or-replicate zero i d = refl
get_or-replicate (suc n) zero d = refl
get_or-replicate (suc n) (suc i) d = get_or-replicate n i d

pub slots-zero : (s : List Demand) (m h n : ℕ) → n ≡ 0 → slots s m h n ≡ []
unfolding slots
slots-zero s m h zero e = refl
slots-zero s m h (suc n) e = absurd (omega arith)

-- The first slot read and the others.
pub slots_pos :
    (s : List Demand) (m h n : ℕ)
    → 0 < n
    → slots s m h n ≡ get_or s (h % m) default_demand ∷ slots s m (h + 1) (n - 1)
unfolding slots
slots_pos s m h zero p = absurd (omega arith)
slots_pos s m h (suc n) p =
    ap (λ k. get_or s (h % m) default_demand ∷ slots s m (h + 1) k) (omega arith)

pub get_or-set_clear :
    (s : List Demand) (i j : ℕ) (d : Demand) → get_or s j d ≡ d → get_or (set s i d) j d ≡ d
get_or-set_clear [] i j d e = refl
get_or-set_clear (x ∷ s) zero zero d e = refl
get_or-set_clear (x ∷ s) zero (suc j) d e = e
get_or-set_clear (x ∷ s) (suc i) zero d e = e
get_or-set_clear (x ∷ s) (suc i) (suc j) d e = get_or-set_clear s i j d e

pub get_or-set_clear_self : (s : List Demand) (i : ℕ) (d : Demand) → get_or (set s i d) i d ≡ d
get_or-set_clear_self [] i d = refl
get_or-set_clear_self (x ∷ s) zero d = refl
get_or-set_clear_self (x ∷ s) (suc i) d = get_or-set_clear_self s i d

-- The slot behind the last one of a ring is its head.
pub slot_wrap : (m h k j : ℕ) → h < m → k + 1 ≡ m → j ≡ (h + (k + 1)) % m → j ≡ h
slot_wrap m h k j hm e f = omega (arith, mod_once (h + (k + 1)) m (omega arith), f)

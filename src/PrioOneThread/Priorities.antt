-- ===== src/PrioOneThread/Priorities.antt =====
-- so_5/h/priority.hpp: priorities p0 to p7 are the numbers 0 to 7. The array of subqueues of a
-- dispatcher is a function from the index, read and written below 8.
use android_vendor_sobjectiz.Common.{
  ℕ, ◌+◌, ◌-◌, ltb, leb, ◌==◌, if◌then◌else◌, Bool, not, ◌&&◌, Option, none, some,
}

abbrev pub p_max : ℕ
p_max = 7

abbrev pub total_priorities_count : ℕ
total_priorities_count = 8

-- to_priority_t: a number out of range throws std::invalid_argument.
pub to_priority : ℕ → Option ℕ
to_priority v = if leb 0 v && leb v p_max then some v else none

pub has_next : ℕ → Bool
has_next p = not (p == p_max)

pub next : ℕ → ℕ
next p = if ltb p p_max then p + 1 else p_max

pub has_prev : ℕ → Bool
has_prev p = not (p == 0)

pub prev : ℕ → ℕ
prev p = if ltb 0 p then p - 1 else 0

module _ {ℓ} {A : Type ℓ} where
  abbrev pub update : (ℕ → A) → ℕ → A → ℕ → A
  update f i v j = if j == i then v else f j

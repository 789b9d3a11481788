-- ===== src/SpendingLimits/Windows.antt =====
-- The logical hours, days and months of contracts/spending-limits/src/lib.rs: the time is divided into
-- windows, each open at its start and closed at its end.
use stellarspend_contracts.Common.{ℕ, ◌+◌, ◌-◌, ◌*◌, ◌/◌, ◌≤◌, ◌<◌, ◌≡◌, ◌∙◌, ◌↔◌, sym, arith}
use stellarspend_contracts.SpendingLimits.Enforcement.{window_id}

window_id_pos : (seconds now : ℕ) → 0 < now → window_id seconds now ≡ (now - 1) / seconds
unfolding window_id
window_id_pos seconds now h = ground arith

div_bounds : (s t : ℕ) → 0 < s → (t / s * s ≤ t) × (t < (t / s + 1) * s)
div_bounds s t h = (grind arith, grind arith)

div_step : (s t : ℕ) → 0 < s → (t + s) / s ≡ t / s + 1
div_step s t h = grind arith

-- A positive time lies in its window: after its start, and at its end at the latest.
pub window_id_bounds :
    (seconds now : ℕ)
    → 0 < seconds
    → 0 < now
    → (window_id seconds now * seconds < now) × (now ≤ (window_id seconds now + 1) * seconds)
window_id_bounds seconds now p q =
    let (lo, hi) = div_bounds seconds (now - 1) p in
    rw (window_id_pos seconds now q) (omega arith, omega arith)

-- A whole window later it is the next window.
pub window_id-add :
    (seconds now : ℕ)
    → 0 < seconds
    → 0 < now
    → window_id seconds (now + seconds) ≡ window_id seconds now + 1
window_id-add seconds now p q =
    let shift : now + seconds - 1 ≡ now - 1 + seconds = omega arith in
    rw (window_id_pos seconds now q, window_id_pos seconds (now + seconds) (omega arith), shift)
      (div_step seconds (now - 1) p)

-- The time is in the window of the number `n`.
abbrev pub InWindow : (seconds n t : ℕ) → Type 0
InWindow seconds n t = (n * seconds < t) × (t ≤ (n + 1) * seconds)

abbrev pub SameWindow : (seconds t t' : ℕ) → Type 0
SameWindow seconds t t' = (n : ℕ) × InWindow seconds n t × InWindow seconds n t'

below_of_product : (s a b : ℕ) → a * s < b * s → a < b
below_of_product s a b h = grind arith

-- A time is in one window.
pub window_id_unique :
    (seconds n t : ℕ) → 0 < seconds → InWindow seconds n t → window_id seconds t ≡ n
window_id_unique seconds n t p (lo, hi) =
    let (lo', hi') = window_id_bounds seconds t p (omega arith) in
    let w = window_id seconds t in
    let one = below_of_product seconds n (w + 1) (omega arith) in
    let two = below_of_product seconds w (n + 1) (omega arith) in omega arith

-- Two positive times have the same number exactly if they are in the same window.
pub window_id-SameWindow :
    (seconds t t' : ℕ)
    → 0 < seconds
    → 0 < t
    → 0 < t'
    → (window_id seconds t ≡ window_id seconds t') ↔ SameWindow seconds t t'
window_id-SameWindow seconds t t' p q q' = (
  λ same. (
    window_id seconds t,
    window_id_bounds seconds t p q,
    rw same (window_id_bounds seconds t' p q'),
  ),
  λ (n, here, there).
      window_id_unique seconds n t p here ∙ sym (window_id_unique seconds n t' p there),
)

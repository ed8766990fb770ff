-- ===== src/Monitor/Points.antt =====
-- The points of the charts of frontend/app/(dashboard)/monitor/page.tsx.
use native.Mathlib.Nat.{div-lt_iff_lt-mul, div-mul-le_self, lt-mul-div-succ, mul_comm}
use ventopanel.Base.{
  ℕ, ◌+◌, ◌*◌, ◌/◌, ◌≤◌, ◌<◌, ltb, if◌then◌else◌, List, [], ◌∷◌, ◌++◌, Text, length, take_last,
  take_last-append, push_last-take_last, ◌∙◌, ◌≡◌, arith,
}

-- `R` stands for the fields that are shown as the server sends them: the use of the processor, the load, the disk and
-- the network.
pub record Snapshot (R : Type 0) : Type 0 where
  pub ts : ℕ
  pub ram_total_mb : ℕ
  pub ram_used_mb : ℕ
  pub rest : R

pub record ChartPoint (R : Type 0) : Type 0 where
  pub snapshot : Snapshot R
  pub time : Text
  pub ram_pct : ℕ

abbrev pub max_points : ℕ
max_points = 40

-- `Math.round((used / total) * 100)`, which rounds halves up, of the exact quotient; JavaScript's is the
-- nearest double.
unfoldable pub rounded_pct : ℕ → ℕ → ℕ
rounded_pct used total = (200 * used + total) / (2 * total)

-- `show_time` is `toLocaleTimeString`.
unfoldable pub to_point : {R : Type 0} → (ℕ → Text) → Snapshot R → ChartPoint R
unfolding rounded_pct
to_point show_time s = record {
  snapshot = s;
  time = show_time s.ts;
  ram_pct = if ltb 0 s.ram_total_mb then rounded_pct s.ram_used_mb s.ram_total_mb else 0;
}

-- The update of the history.
unfoldable pub add_point : {R : Type 0} → List (ChartPoint R) → ChartPoint R → List (ChartPoint R)
add_point prev point =
    let next = prev ++ point ∷ [] in
    if ltb max_points (length next) then take_last max_points next else next

-- The percentage is the integer next to the quotient, the higher one of two that are as near.
pub rounded_pct-nearest :
    (used total : ℕ)
    → 0 < total
    → (2 * total * rounded_pct used total ≤ 200 * used + total)
      × (200 * used + total < 2 * total * (rounded_pct used total + 1))
unfolding rounded_pct
rounded_pct-nearest used total h =
    let whole : ℕ = (200 * used + total) / (2 * total) in
    let d : ℕ = 2 * total in
    (
      omega (arith, div-mul-le_self (200 * used + total) d, mul_comm d whole),
      lt-mul-div-succ (200 * used + total) {b = d} (omega arith),
    )

pub rounded_pct-le : (used total : ℕ) → used ≤ total → 0 < total → rounded_pct used total ≤ 100
unfolding rounded_pct
rounded_pct-le used total h k =
    let below : (200 * used + total) / (2 * total) < 101 =
      (div-lt_iff_lt-mul {k = 2 * total} {y = 101} (omega arith)).1 (omega arith) in
    omega (arith, below)

module _ {R : Type 0} (show_time : ℕ → Text) where
  pub to_point-pct :
      (s : Snapshot R) → s.ram_used_mb ≤ s.ram_total_mb → (to_point show_time s).ram_pct ≤ 100
  unfolding to_point
  to_point-pct s h = ground (arith, rounded_pct-le s.ram_used_mb s.ram_total_mb h)

  -- A history that is cut to its last points grows as the whole one would, and is cut again.
  pub add_point-take_last :
      (prev : List (ChartPoint R)) (point : ChartPoint R)
      → add_point (take_last max_points prev) point ≡ take_last max_points (prev ++ point ∷ [])
  unfolding add_point
  add_point-take_last prev point =
      push_last-take_last max_points (take_last max_points prev) point
      ∙ take_last-append max_points prev (point ∷ [])

-- ===== src/Hal/Telemetry/Budget.antt =====
-- The sampling budget is a bound on a sum, whatever the order of the map is.
use linuxcnc_ctrl.Prelude.{
  ℕ, ◌+◌, ◌-◌, ◌≤◌, ◌≡◌, String, false, Option, List, [], ◌∷◌, ltb, leb, arith, Bool-cases, inl,
  inr,
}
use linuxcnc_ctrl.Hal.Telemetry.Fastest.{fastest_request, requests, Distinct, fastest_of-requests}
use linuxcnc_ctrl.Hal.Telemetry.{
  ResolvedItem, Telemetry, max_samples_per_second, period_at, rate_of, affordable, fastest_of,
  within_sampling_budget,
}

-- The samples per second that a map of keys and periods asks for.
abbrev pub total_rate : List (String × ℕ) → ℕ
total_rate [] = 0
total_rate (entry ∷ fastest) = rate_of entry.1 + total_rate fastest

fits :
    (cost rate : ℕ)
    → ltb (max_samples_per_second - cost) rate ≡ false
    → cost ≤ max_samples_per_second
    → cost + rate ≤ max_samples_per_second
fits cost rate h k = ground (arith, h, k)

affordable-total :
    (cost : ℕ) (fastest : List (String × ℕ))
    → cost ≤ max_samples_per_second
    → affordable cost fastest ≡ leb (cost + total_rate fastest) max_samples_per_second
unfolding affordable
affordable-total cost [] h = ground (arith, h)
affordable-total cost (entry ∷ fastest) h =
    elim (Bool-cases (ltb (max_samples_per_second - cost) (rate_of entry.1))) [
      | inl over ↦ rw over (ground (arith, over, h))
      | inr within ↦ rw within (
          ground (
            arith,
            within,
            h,
            affordable-total (cost + rate_of entry.1) fastest
                (fits cost (rate_of entry.1) within h),
          ))
    ]

-- The budget check accepts exactly the requests with which the rates in its map add up to at most 20,480
-- samples per second: the subtraction in its loop never wraps. The map has no key twice, and at every key
-- the fastest period that a subscription asks for it, or the new request does, and nothing at a key that
-- nobody asks for; a subscription that is to be replaced is left out.
pub within_sampling_budget-total :
    (t : Telemetry) (replacing : Option String) (items : List ResolvedItem) (sample_period : ℕ)
    (k : String)
    → let fastest = fastest_of t replacing items sample_period in
      (within_sampling_budget t replacing items sample_period
        ≡ leb (total_rate fastest) max_samples_per_second)
      × (period_at k fastest ≡ fastest_request k (requests t replacing items sample_period))
      × Distinct fastest
unfolding within_sampling_budget
within_sampling_budget-total t replacing items sample_period k =
    let fastest = fastest_of t replacing items sample_period in
    let (least, distinct) = fastest_of-requests t replacing items sample_period k in
    (ground (arith, affordable-total 0 fastest (omega arith)), least, distinct)

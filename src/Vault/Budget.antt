-- ===== src/Vault/Budget.antt =====
-- The monthly budget of prescreener_vault/reuse.py: `_target_from_baseline`, `_claim_month_slot`,
-- `_release_month_slot` and `_mark_pool`. The key of a new counter is the database's choice.
use quant_tool.Base.{
  ℕ, ◌+◌, ◌-◌, ◌*◌, ◌/◌, ◌≤◌, ◌≡◌, Bool, true, false, ◌&&◌, ◌||◌, Option, none, some, arith, ltb,
  leb, ◌==◌, if◌then◌else◌,
}
use quant_tool.Base.Table.{Table, update, create}
use quant_tool.Base.Lists.{find}
use quant_tool.Vault.Models.{Integration, Counter, Pool, first, returning}

pub data Source : Type 0 where
  previous_month current_month_bootstrap : Source

-- `_monthly_baseline`: last month's attempts, or this month's where last month had none.
unfoldable pub monthly_baseline : ℕ → ℕ → ℕ × Source
monthly_baseline previous current =
    if ltb 0 previous then (previous, previous_month) else (current, current_month_bootstrap)

unfoldable pub target_from_baseline : ℕ → ℕ → ℕ
target_from_baseline percentage baseline = baseline * percentage / 10000

-- `_legacy_pool_targets`
unfoldable pub legacy_pool_targets : Bool → ℕ → ℕ → ℕ × ℕ
legacy_pool_targets enabled repeat_percentage total =
    let repeat = total * repeat_percentage / 10000 in
    if enabled then (total - repeat, repeat) else (total, 0)

abbrev pub is_month : ℕ → ℕ → Counter → Bool
is_month integration_id period c =
    (c.integration_id == integration_id) && (c.period_start == period)

-- The baseline and the target that a claim writes before it tests them.
unfoldable pub refreshed : Bool → ℕ → ℕ × Source → Counter → Counter
unfolding target_from_baseline
refreshed created percentage (live, previous_month) c = record c {
  baseline_attempts = live;
  target_reuses = target_from_baseline percentage live;
}
refreshed created percentage (live, current_month_bootstrap) c =
    let baseline = if created || ltb c.baseline_attempts live then live else c.baseline_attempts in
    record c {
      baseline_attempts = baseline;
      target_reuses = target_from_baseline percentage baseline;
    }

-- The test and the count of a claim.
abbrev pub is_spent : Counter → Bool
is_spent c = leb c.target_reuses 0 || leb c.target_reuses c.allocated_reuses

unfoldable pub counted : Counter → Counter
counted c = record c { allocated_reuses = c.allocated_reuses + 1 }

abbrev pub empty_counter : ℕ → ℕ → Counter
empty_counter integration_id period = record {
  integration_id = integration_id;
  period_start = period;
  baseline_attempts = 0;
  target_reuses = 0;
  allocated_reuses = 0;
  first_reuse_allocated = 0;
  repeat_reuse_allocated = 0;
}

-- A claim on one counter: the saved row, and whether a slot was taken.
unfoldable pub claim_counter : Bool → ℕ → ℕ × Source → Counter → Counter × Bool
unfolding refreshed counted
claim_counter created percentage baseline c =
    let r = refreshed created percentage baseline c in
    if is_spent r then (r, false) else (counted r, true)

-- `_claim_month_slot`: the key of the counter, where a slot was taken.
unfoldable pub claim_month_slot :
    ℕ → Integration → ℕ → ℕ × Source → Table Counter → Option ℕ × Table Counter
unfolding claim_counter
claim_month_slot new_key integration period baseline counters =
    elim (find (λ row. is_month integration.pk period row.1) counters) [
      | some (k, c) ↦
          let (saved, taken) =
            claim_counter false integration.profile_reuse_monthly_percentage baseline c in
          (if taken then some k else none, update k (λ _. saved) counters)
      | none ↦
          let (saved, taken) =
            claim_counter true integration.profile_reuse_monthly_percentage baseline
              (empty_counter integration.pk period) in
          (if taken then some new_key else none, create new_key saved counters)
    ]

unfoldable pub released : Counter → Counter
released c =
    if ltb 0 c.allocated_reuses then record c { allocated_reuses = c.allocated_reuses - 1 } else c

-- `_release_month_slot`
unfoldable pub release_month_slot : ℕ → Table Counter → Table Counter
unfolding released
release_month_slot k counters = update k released counters

unfoldable pub in_pool : Pool → Counter → Counter
in_pool first c = record c { first_reuse_allocated = c.first_reuse_allocated + 1 }
in_pool returning c = record c { repeat_reuse_allocated = c.repeat_reuse_allocated + 1 }

-- `_mark_pool`
unfoldable pub mark_pool : ℕ → Pool → Table Counter → Table Counter
unfolding in_pool
mark_pool k pool counters = update k (in_pool pool) counters

-- A claim that takes a slot stays within the target that it has just computed, and counts one; one
-- that takes none finds the target used up, and changes no count. Releasing the slot taken gives the
-- earlier count back.
claim_counter_within :
    (created : Bool) (percentage : ℕ) (baseline : ℕ × Source) (c : Counter)
    → let (saved, taken) = claim_counter created percentage baseline c in
      let r = refreshed created percentage baseline c in
      (saved.allocated_reuses ≡ (if taken then c.allocated_reuses + 1 else c.allocated_reuses))
      × (saved.target_reuses ≡ r.target_reuses)
      × (taken ≡ ltb c.allocated_reuses r.target_reuses)
      × ((released (counted c)).allocated_reuses ≡ c.allocated_reuses)
unfolding claim_counter released
claim_counter_within created percentage (live, previous_month) c = ground arith
claim_counter_within created percentage (live, current_month_bootstrap) c = ground arith

share_le : (x p : ℕ) → p ≤ 10000 → x * p ≤ x * 10000
share_le x p h = grind arith

-- The monthly target is at most the configured share of the baseline, never more than the baseline
-- itself, and the two legacy pools add up to it.
target_bounds :
    (percentage baseline repeat_percentage : ℕ) (enabled : Bool)
    → percentage ≤ 10000
    → repeat_percentage ≤ 10000
    → let total = target_from_baseline percentage baseline in
      let (fresh, repeat) = legacy_pool_targets enabled repeat_percentage total in
      (total * 10000 ≤ baseline * percentage) × (total ≤ baseline) × (fresh + repeat ≡ total)
unfolding target_from_baseline legacy_pool_targets
target_bounds percentage baseline repeat_percentage enabled h k = ground (
  arith,
  share_le baseline percentage h,
  share_le (baseline * percentage / 10000) repeat_percentage k,
)

-- ===== src/Staking/Tests/Parts.antt =====
-- The theorems on the ledgers, the search and the formulas at inputs that meet their hypotheses.
use polkafoundry.Base.{ℕ, ◌+◌, ◌-◌, ◌/◌, ◌≤◌, ◌≡◌, refl, arith}
use polkafoundry.Samples.{sample_perbill, sample_IsPerThing, billion}
use polkafoundry.Samples.Limbs.{number, number_IsBigUint, number_value}
use polkafoundry.Staking.Taylor.{InPoSParam, div_by_stripped, compute_taylor_serie_part}
use polkafoundry.Staking.Taylor.Division.{div_by_stripped-value}
use polkafoundry.Staking.Taylor.Series.{IsParam, sums, compute_taylor_serie_part-value}
use polkafoundry.Staking.Inflation.{compute_i_npos}
use polkafoundry.Staking.Inflation.Rate.{compute_i_npos_bounds}

-- A divisor of two limbs, as the accuracy of a `Perquintill` is.
abbrev quintillion : ℕ
quintillion = 1000000000000000000

quintillion-stripped : number.lstrip quintillion ≡ quintillion
unfolding number
quintillion-stripped = refl

div_by_stripped-value_example :
    number_IsBigUint.value (div_by_stripped number 5000000000000000000 quintillion)
    ≡ number_IsBigUint.value 5000000000000000000 / number_IsBigUint.value quintillion
div_by_stripped-value_example =
    div_by_stripped-value number number_IsBigUint 5000000000000000000 quintillion
      quintillion-stripped (omega (arith, number_value quintillion))

-- Three quarters staked, one half ideal, a falloff of 5 percent, in billionths.
abbrev param : InPoSParam ℕ
param = record { ln2_div_d = 13862943611; x_ideal = 500000000; x = 750000000; accuracy = billion }

param-IsParam : IsParam number number_IsBigUint param
unfolding number
param-IsParam = record {
  stripped = refl;
  positive = omega (arith, number_value param.accuracy);
  above = omega (arith, number_value param.x, number_value param.x_ideal);
}

compute_taylor_serie_part-value_example :
    let value = number_IsBigUint.value in
    value (compute_taylor_serie_part number param) ≡ (
      let (evens, odds) =
        sums 299 1
          (value param.accuracy)
          (value param.x - value param.x_ideal)
          (value param.ln2_div_d)
          (value param.accuracy)
          (value param.accuracy, 0) in
      evens - odds)
compute_taylor_serie_part-value_example =
    compute_taylor_serie_part-value number number_IsBigUint param param-IsParam

compute_i_npos_bounds_example :
    let rate =
      compute_i_npos number sample_perbill 25000000 200000000 750000000 500000000 50000000 in
    (25000000 ≤ rate) × (rate ≤ 25000000 + (sample_perbill.times 200000000 500000000 - 25000000))
compute_i_npos_bounds_example =
    compute_i_npos_bounds number sample_perbill sample_IsPerThing 25000000 200000000 750000000
      500000000 50000000 (omega arith) (omega arith) (omega arith)

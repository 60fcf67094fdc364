-- ===== src/Examples/Cost.antt =====
-- Tests of src/cost/calculator.rs, and instances of the theorems.
use subdollar_llm_coding_ben.Base.{◌⊎◌, ◌≢◌, List, Option, ◌+◌, ℕ, ◌≡◌, refl, none, some, []}
use subdollar_llm_coding_ben.Text.{codes, ascii_lower, starts_with, contains, find, text_eq}
use subdollar_llm_coding_ben.Cost.{
  CatalogEntry, CatalogEntry, prices, prices_of, is_local, calculate_throughput_score,
  calculate_efficiency_score, speed_ratio, compute_cost_with_cache, token_cost, for_model_async,
  priced,
}
use subdollar_llm_coding_ben.Cost.Scores.{for_model_async-prices_of}
use subdollar_llm_coding_ben.Cost.Pricing.{AreOrdered, prices_of-AreOrdered}
use subdollar_llm_coding_ben.Examples.Numbers.{decimals}

-- A million fresh tokens, half a million from the cache, and a million written ones.
flash :
    (compute_cost_with_cache decimals
      (priced decimals (prices_of (codes "gemini-2.5-flash")))
      1000000
      500000
      1000000).total_cost_usd
    ≡ 76875000
unfolding compute_cost_with_cache token_cost priced prices_of is_local starts_with contains find
    text_eq
flash = refl

-- A full pass for two cents at twice the speed of the reference.
points :
    calculate_throughput_score decimals
      (record { part = 400; whole = 4 })
      2000000
      (some 200)
      (some 100)
    ≡ 25000000000
unfolding calculate_throughput_score calculate_efficiency_score speed_ratio
points = refl

prices_of-AreOrdered_example : AreOrdered (prices_of (codes "anthropic/claude-3.5-sonnet"))
prices_of-AreOrdered_example = prices_of-AreOrdered (codes "anthropic/claude-3.5-sonnet")

-- The state counts the queries of the catalog.
abbrev fetch_none : ℕ → Option (List CatalogEntry) × ℕ
fetch_none s = (some [], s + 1)

for_model_async-prices_of_example :
    ((prices_of (ascii_lower (codes "Ollama/llama3")) ≡ prices 0 0 0)
      × (for_model_async decimals ascii_lower (λ t. none) fetch_none (codes "Ollama/llama3") 0
          ≡ (priced decimals (prices 0 0 0), 0)))
    ⊎ ((prices_of (ascii_lower (codes "Ollama/llama3")) ≢ prices 0 0 0)
        × ((for_model_async decimals ascii_lower (λ t. none) fetch_none (codes "Ollama/llama3") 0).1
            ≡ 1))
for_model_async-prices_of_example =
    for_model_async-prices_of decimals ascii_lower (λ t. none) ℕ fetch_none (codes "Ollama/llama3")
      0

-- ===== src/Cost/Pricing.antt =====
-- The table of prices.
use subdollar_llm_coding_ben.Base.{◌≤◌, arith}
use subdollar_llm_coding_ben.Text.{Text}
use subdollar_llm_coding_ben.Cost.{Prices, prices_of}

-- A token read from the cache costs at most as much as a fresh one, and that at most as much as a
-- token that is written.
abbrev pub AreOrdered : Prices → Type 0
AreOrdered p = (p.cache_read ≤ p.prompt) × (p.prompt ≤ p.completion)

-- For every model name the prices are ordered: reading from the cache is no dearer than a fresh
-- token, and that no dearer than a written one.
pub prices_of-AreOrdered : (m : Text) → AreOrdered (prices_of m)
unfolding prices_of
prices_of-AreOrdered m = ground arith

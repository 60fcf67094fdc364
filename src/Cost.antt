-- ===== src/Cost.antt =====
-- src/cost/calculator.rs: prices, costs and scores. The queries of OpenRouter are requests to a server,
-- which is a parameter: what it answers, read as JSON.
pub mod Scores
pub mod Pricing
use subdollar_llm_coding_ben.Base.{
  ℕ, ◌+◌, ◌*◌, ◌%◌, Bool, true, false, ◌&&◌, ◌||◌, Option, none, some, List, [], ◌∷◌, ◌++◌,
  if◌then◌else◌, any, length, drop,
}
use subdollar_llm_coding_ben.Text.{Text, word, codes, starts_with, ends_with, text_eq, contains}
use subdollar_llm_coding_ben.Stage.{Rate}
use subdollar_llm_coding_ben.Float.{F64, is_lt, is_le, is_gt, below_full}

-- Prices in hundred-millionths of a dollar for a million tokens.
pub record Prices : Type 0 where
  pub prompt : ℕ
  pub completion : ℕ
  pub cache_read : ℕ

-- Four decimals, as the source writes its prices.
abbrev pub prices : ℕ → ℕ → ℕ → Prices
prices p c r = record { prompt = 10000 * p; completion = 10000 * c; cache_read = 10000 * r }

abbrev pub local_prefixes : List Text
local_prefixes =
    codes "ollama/"
    ∷ codes "local/"
    ∷ codes "openai/qwen"
    ∷ codes "openai/local"
    ∷ codes "openai/llama"
    ∷ codes "openai/deepseek"
    ∷ codes "openai/glm"
    ∷ codes "openai/gemma"
    ∷ codes "openai/phi"
    ∷ codes "openai/starcoder"
    ∷ []

-- A model that runs on the machine, as for_model tells it.
unfoldable pub is_local : Text → Bool
is_local m = any (starts_with m) local_prefixes || text_eq m (codes "openai/local-llama")

-- The list that for_model_async has of its own.
abbrev pub live_local_prefixes : List Text
live_local_prefixes =
    codes "ollama/"
    ∷ codes "local/"
    ∷ codes "openai/qwen"
    ∷ codes "openai/local"
    ∷ codes "openai/llama"
    ∷ codes "openai/deepseek"
    ∷ codes "openai/glm"
    ∷ codes "openai/gemma"
    ∷ codes "openai/phi"
    ∷ codes "openai/starcoder"
    ∷ []

-- A model that runs on the machine, as for_model_async tells it.
unfoldable pub is_live_local : Text → Bool
is_live_local m = any (starts_with m) live_local_prefixes || text_eq m (codes "openai/local-llama")

-- The prices of a model whose name is in lower case.
unfoldable pub prices_of : Text → Prices
prices_of m =
    if is_local m
    then prices 0 0 0
    else if contains m (codes "gemini-2.5-flash")
    then prices 1500 6000 375
    else if contains m (codes "deepseek-chat") || contains m (codes "deepseek-v3")
    then prices 1400 2800 140
    else if contains m (codes "qwen-2.5-coder-32b")
    then prices 600 1500 150
    else if contains m (codes "llama-3.3-70b")
    then prices 1200 3000 300
    else if contains m (codes "gpt-4o-mini")
    then prices 1500 6000 750
    else if contains m (codes "claude-3-haiku")
    then prices 8000 40000 800
    else if contains m (codes "mistral-small")
    then prices 1000 3000 250
    else prices 2000 6000 500

-- `s.trim_start_matches(p)`, which takes every `p` in front away; a `p` is not empty. The fuel is the
-- length of the text.
trim_matches : ℕ → Text → Text → Text
trim_matches ℕ.zero s p = s
trim_matches (ℕ.suc n) s p =
    let rest = trim_matches n (drop (length p) s) p in if starts_with s p then rest else s

unfoldable pub trim_start_matches : Text → Text → Text
unfolding trim_matches
trim_start_matches s p = trim_matches (length s) s p

-- An entry of the catalog: its `id`, and the texts of `pricing.prompt` and `pricing.completion`,
-- each if it is there and a string.
pub record CatalogEntry : Type 0 where
  pub entry_id : Option Text
  pub prompt_price : Option Text
  pub completion_price : Option Text

module _ (f : F64) where
  open f use {Num, lit, of_nat, add, sub, mul, div, max, partial_cmp}

  pub record ModelPricing : Type 0 where
    pub prompt_per_million : Num
    pub completion_per_million : Num
    pub cache_read_per_million : Num

  pub record CostBreakdown : Type 0 where
    pub total_cost_usd : Num
    pub un_cached_cost_usd : Num
    pub savings_usd : Num
    pub savings_percent : Num

  abbrev pub lt : Num → Num → Bool
  lt a b = is_lt (partial_cmp a b)

  abbrev pub le : Num → Num → Bool
  le a b = is_le (partial_cmp a b)

  abbrev pub gt : Num → Num → Bool
  gt a b = is_gt (partial_cmp a b)

  abbrev pub whole : ℕ → Num
  whole n = lit (100000000 * n)

  unfoldable pub compute_cost : Num → ℕ → Num
  compute_cost duration_seconds total_tokens =
      add (mul duration_seconds (lit 3000)) (mul (of_nat total_tokens) (lit 5))

  unfoldable pub calculate_effective_cost : Num → Num → ℕ → Num
  calculate_effective_cost api_cost_usd duration_seconds total_tokens =
      add api_cost_usd (compute_cost duration_seconds total_tokens)

  unfoldable pub calculate_efficiency_score : Rate → Num → Num
  calculate_efficiency_score pass_rate effective_cost_usd =
      if below_full pass_rate || le effective_cost_usd (lit 0)
      then lit 0
      else (let cost_cents = max (mul effective_cost_usd (whole 100)) (lit 10000) in
          div (whole 100) cost_cents)

  abbrev pub or_zero : Option Num → Num
  or_zero none = lit 0
  or_zero (some a) = a

  unfoldable pub speed_ratio : Num → Num → Num
  speed_ratio cand_tp ref_tp =
      if gt ref_tp (lit 0)
      then div cand_tp ref_tp
      else if gt cand_tp (lit 0)
      then div cand_tp (whole 33000)
      else lit 0

  unfoldable pub calculate_throughput_score : Rate → Num → Option Num → Option Num → Num
  calculate_throughput_score pass_rate effective_cost_usd throughput reference =
      let base_eff = calculate_efficiency_score pass_rate effective_cost_usd in
      let cand_tp = max (or_zero throughput) (lit 0) in
      let ref_tp = max (or_zero reference) (lit 0) in
      if le base_eff (lit 0)
      then lit 0
      else mul base_eff (add (whole 1) (mul (whole 2) (speed_ratio cand_tp ref_tp)))

  unfoldable pub priced : Prices → ModelPricing
  priced p = record {
    prompt_per_million = lit p.prompt;
    completion_per_million = lit p.completion;
    cache_read_per_million = lit p.cache_read;
  }

  unfoldable pub from_rates : Num → Num → ModelPricing
  from_rates prompt_per_m completion_per_m = record {
    prompt_per_million = prompt_per_m;
    completion_per_million = completion_per_m;
    cache_read_per_million = mul prompt_per_m (lit 25000000);
  }

  -- `(tokens as f64 / 1_000_000.0) * price`
  unfoldable pub token_cost : ℕ → Num → Num
  token_cost tokens price = mul (div (of_nat tokens) (whole 1000000)) price

  -- The sum of the tokens is one of 64 bits.
  unfoldable pub compute_cost_with_cache : ModelPricing → ℕ → ℕ → ℕ → CostBreakdown
  compute_cost_with_cache p prompt_tokens cached_tokens completion_tokens =
      let fresh_cost = token_cost prompt_tokens p.prompt_per_million in
      let cached_cost = token_cost cached_tokens p.cache_read_per_million in
      let comp_cost = token_cost completion_tokens p.completion_per_million in
      let total = add (add fresh_cost cached_cost) comp_cost in
      let un_cached =
        add (token_cost ((prompt_tokens + cached_tokens) % word) p.prompt_per_million) comp_cost in
      let savings = max (sub un_cached total) (lit 0) in
      record {
        total_cost_usd = total;
        un_cached_cost_usd = un_cached;
        savings_usd = savings;
        savings_percent =
            if gt un_cached (lit 0) then mul (div savings un_cached) (whole 100) else lit 0;
      }

  module _ (lower : Text → Text) where
    unfoldable pub for_model : Text → ModelPricing
    for_model model_name = priced (prices_of (lower model_name))

    unfoldable pub names_model : Text → Text → Bool
    names_model norm_model id =
        let id_lower = lower id in
        text_eq id_lower norm_model
        || ends_with norm_model (codes "/" ++ id_lower)
        || ends_with id_lower (codes "/" ++ norm_model)
        || text_eq id_lower (trim_start_matches norm_model (codes "openrouter/"))

    is_entry_of : Text → CatalogEntry → Bool
    is_entry_of norm_model e = elim e.entry_id [
      | none ↦ false
      | some id ↦ names_model norm_model id
    ]

    -- `data.iter().find(..)`
    find_entry : Text → List CatalogEntry → Option CatalogEntry
    find_entry norm_model [] = none
    find_entry norm_model (e ∷ es) =
        let rest = find_entry norm_model es in if is_entry_of norm_model e then some e else rest

    -- `parse_f64` is `parse::<f64>().ok()`.
    module _ (parse_f64 : Text → Option Num) where
      parse_price : Option Text → Option Num
      parse_price none = none
      parse_price (some t) = parse_f64 t

      per_million : Option Num → Option Num → Option ModelPricing
      per_million (some p) (some c) =
          some (from_rates (mul p (whole 1000000)) (mul c (whole 1000000)))
      per_million _ _ = none

      entry_pricing : Option CatalogEntry → Option ModelPricing
      entry_pricing none = none
      entry_pricing (some e) =
          per_million (parse_price e.prompt_price) (parse_price e.completion_price)

      -- `none` is a catalog that could not be fetched or read.
      unfoldable pub fetch_openrouter_model_pricing :
          Option (List CatalogEntry) → Text → Option ModelPricing
      unfolding is_entry_of find_entry parse_price per_million entry_pricing
      fetch_openrouter_model_pricing none model_name = none
      fetch_openrouter_model_pricing (some catalog) model_name =
          entry_pricing (find_entry (lower model_name) catalog)

      or_else : Option ModelPricing → ModelPricing → ModelPricing
      or_else (some p) q = p
      or_else none q = q

      -- The catalog is fetched only for a model that is not local.
      unfoldable pub for_model_async :
          {State : Type 0}
          → (State → Option (List CatalogEntry) × State)
          → Text
          → State
          → ModelPricing × State
      unfolding or_else
      for_model_async fetch model_name s = elim (is_live_local (lower model_name)) [
        | true ↦ (for_model model_name, s)
        | false ↦
            let (catalog, s') = fetch s in
            (or_else (fetch_openrouter_model_pricing catalog model_name) (for_model model_name), s')
      ]

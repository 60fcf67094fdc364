-- ===== src/Cost/Scores.antt =====
-- What the scores and costs are worth, by laws of `f64` that IEEE 754 grants.
use mathlib.Core.Bool.{false≢true}
use subdollar_llm_coding_ben.Base.{
  ◌⊎◌, sym, inl, inr, Bool-cases, ◌≡◌, ◌≢◌, ◌↔◌, ◌∙◌, refl, ap, true, false, arith, Option, List,
}
use subdollar_llm_coding_ben.Text.{Text}
use subdollar_llm_coding_ben.Stage.{Rate}
use subdollar_llm_coding_ben.Float.{F64, is_le, below_full}
use subdollar_llm_coding_ben.Cost.{
  CatalogEntry, ModelPricing, is_local, is_live_local, prices, prices_of, priced, for_model,
  for_model_async, calculate_efficiency_score, calculate_throughput_score,
}

-- The two lists that are written apart name the same models.
is_live_local-is_local : (m : Text) → is_live_local m ≡ is_local m
unfolding is_live_local is_local
is_live_local-is_local m = refl

charged : (m : Text) → (prices_of m).completion ≡ 0 → is_local m ≡ true
unfolding prices_of
charged m h = ground arith

-- Only the models that run on the machine are free.
prices_of_iff : (m : Text) → (prices_of m ≡ prices 0 0 0) ↔ (is_local m ≡ true)
unfolding prices_of
prices_of_iff m = (λ h. charged m (ap (λ p. p.completion) h), λ h. rw (h) refl)

module _ (f : F64) where
  open f use {Num, lit, partial_cmp}

  -- Zero is at most itself.
  abbrev pub ZeroIsLe : Type 0
  ZeroIsLe = is_le (partial_cmp (lit 0) (lit 0)) ≡ true

  pub calculate_throughput_score-below_full :
      ZeroIsLe
      → (pass_rate : Rate) (cost : Num) (throughput reference : Option Num)
      → below_full pass_rate ≡ true
      → calculate_throughput_score f pass_rate cost throughput reference ≡ lit 0
  unfolding calculate_throughput_score calculate_efficiency_score
  calculate_throughput_score-below_full zero_le pass_rate cost throughput reference h =
      rw (h, zero_le) refl

  module _ (lower : Text → Text) (parse_f64 : Text → Option Num) (State : Type 0)
      (fetch : State → Option (List CatalogEntry) × State) (model_name : Text) (s : State) where
    async : ModelPricing f × State
    async = for_model_async f lower parse_f64 fetch model_name s

    free_async : is_local (lower model_name) ≡ true → async ≡ (priced f (prices 0 0 0), s)
    unfolding async for_model_async for_model
    free_async h =
        rw (is_live_local-is_local (lower model_name) ∙ h, for_model_async)
          (ap (λ p. (priced f p, s)) ((prices_of_iff (lower model_name)).1 h))

    asks : is_local (lower model_name) ≡ false → async.1 ≡ (fetch s).1
    unfolding async for_model_async
    asks h = rw (is_live_local-is_local (lower model_name) ∙ h, for_model_async) refl

    -- The two lists of local models agree. Either for_model has a name for free, and then for_model_async
    -- does not ask for the catalog and has it for free too; or it has not, and then for_model_async
    -- asks for the catalog.
    pub for_model_async-prices_of :
        ((prices_of (lower model_name) ≡ prices 0 0 0)
          × (for_model_async f lower parse_f64 fetch model_name s ≡ (priced f (prices 0 0 0), s)))
        ⊎ ((prices_of (lower model_name) ≢ prices 0 0 0)
            × ((for_model_async f lower parse_f64 fetch model_name s).1 ≡ (fetch s).1))
    unfolding async
    for_model_async-prices_of =
        let free = prices_of_iff (lower model_name) in
        elim (Bool-cases (is_local (lower model_name))) [
          | inl e ↦ inl (free.1 e, free_async e)
          | inr e ↦ inr (λ h. false≢true (sym e ∙ free.0 h), asks e)
        ]

  -- What the query of the catalog keeps, the prices keep.
  pub for_model_async-keeps :
      (lower : Text → Text) (parse_f64 : Text → Option Num) {State : Type 0}
      (fetch : State → Option (List CatalogEntry) × State) (P : State → Type 0)
      → ((s : State) → P s → P (fetch s).1)
      → (model_name : Text) (s : State) → P s
      → P (for_model_async f lower parse_f64 fetch model_name s).1
  unfolding for_model_async
  for_model_async-keeps lower parse_f64 fetch P keeps model_name s h =
      elim (Bool-cases (is_live_local (lower model_name))) [
        | inl e ↦ rw (e, for_model_async) h
        | inr e ↦ rw (e, for_model_async) (keeps s h)
      ]

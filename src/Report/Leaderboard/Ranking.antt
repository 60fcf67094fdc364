-- ===== src/Report/Leaderboard/Ranking.antt =====
-- The ranking of `load_all`.
use mathlib.Core.List.{Perm}
use subdollar_llm_coding_ben.Base.{
  ◌≡◌, ◌≢◌, refl, sym, ap, ◌∙◌, Bool, true, false, Bool-cases, inl, inr, Option, none, some, List,
  [], ◌∷◌, All,
}
use subdollar_llm_coding_ben.Text.{codes, text_eq, text_eq_iff}
use mathlib.Core.Bool.{false≢true}
use subdollar_llm_coding_ben.Order.{Ordering, cmp_bool, or_equal, reverse_order}
use subdollar_llm_coding_ben.Order.Laws.{
  IsOrder, cmp_bool-IsOrder, IsOrder-key, IsOrder-flip, IsOrder-then_with,
}
use subdollar_llm_coding_ben.Order.Sort.{IsSortedBy, sort_by-perm, sort_by-IsSortedBy}
use subdollar_llm_coding_ben.Float.{F64}
use subdollar_llm_coding_ben.Report.Leaderboard.{
  BenchmarkRunResult, ResultFile, compare_results, cmp_num, passed_all, score, effective_cost,
  throughput, parsed_results, load_all,
}

module _ (f : F64) where
  -- JSON holds finite numbers only, and `f` stands for these here: they are ordered.
  abbrev pub NumbersAreOrdered : Type 0
  NumbersAreOrdered = IsOrder (cmp_num f)

  abbrev R : Type 0
  R = BenchmarkRunResult f

  compare_results-IsOrder : NumbersAreOrdered → IsOrder (compare_results f)
  compare_results-IsOrder o =
      let num = cmp_num f in
      let down = IsOrder-flip num o in
      let by_tests =
        IsOrder-key (λ x y. cmp_bool y x) (passed_all f) (IsOrder-flip cmp_bool cmp_bool-IsOrder) in
      let by_rate = IsOrder-key (λ x y. num y x) (λ (r : R). r.pass_rate) down in
      let by_score = IsOrder-key (λ x y. num y x) (score f) down in
      let by_cost = IsOrder-key num (effective_cost f) o in
      let by_throughput = IsOrder-key (λ x y. num y x) (throughput f) down in
      IsOrder-then_with _ _ by_tests (
        IsOrder-then_with _ _ by_rate
          (IsOrder-then_with _ _ by_score (IsOrder-then_with _ _ by_cost by_throughput)))

  sorted :
      NumbersAreOrdered
      → (files : List (ResultFile f)) → IsSortedBy (compare_results f) (load_all f files)
  unfolding load_all
  sorted o files =
      sort_by-IsSortedBy (compare_results f) (compare_results-IsOrder o) (parsed_results f files)

  -- Behind a result that passed not all of its stages there is none that did.
  abbrev pub FullPassesFirst : List R → Type 0
  FullPassesFirst [] = Unit
  FullPassesFirst (a ∷ rs) =
      (passed_all f a ≡ false → All (λ b. passed_all f b ≡ false) rs) × FullPassesFirst rs

  abbrev pub IsLess : f.Num → f.Num → Type 0
  IsLess a b = f.partial_cmp a b ≡ some Ordering.lt

  abbrev pub AreTied : f.Num → f.Num → Type 0
  AreTied a b = (¬ IsLess a b) × (¬ IsLess b a)

  -- Result `a` is the better one: it passed all of its tests and `b` did not, or this ties and its pass
  -- rate is higher, or this too ties and its score is higher, and then its cost lower, and then its
  -- throughput higher.
  pub data Beats (a b : R) : Type 0 where
    by_tests : passed_all f a ≡ true → passed_all f b ≡ false → Beats a b
    by_rate : passed_all f a ≡ passed_all f b → IsLess b.pass_rate a.pass_rate → Beats a b
    by_score :
        passed_all f a ≡ passed_all f b
        → AreTied a.pass_rate b.pass_rate
        → IsLess (score f b) (score f a)
        → Beats a b
    by_cost :
        passed_all f a ≡ passed_all f b
        → AreTied a.pass_rate b.pass_rate
        → AreTied (score f a) (score f b)
        → IsLess (effective_cost f a) (effective_cost f b)
        → Beats a b
    by_throughput :
        passed_all f a ≡ passed_all f b
        → AreTied a.pass_rate b.pass_rate
        → AreTied (score f a) (score f b)
        → AreTied (effective_cost f a) (effective_cost f b)
        → IsLess (throughput f b) (throughput f a)
        → Beats a b

  -- No result stands behind one that it beats.
  abbrev pub IsRanked : List R → Type 0
  IsRanked [] = Unit
  IsRanked (a ∷ rs) = All (λ b. ¬ Beats b a) rs × IsRanked rs

  -- The results of the files that have the extension and can be read and parsed.
  pub data Reads : List (ResultFile f) → List R → Type 0 where
    no_file : Reads [] []
    is_result :
        {file : ResultFile f} {files : List (ResultFile f)} {r : R} {rs : List R}
        → file.extension ≡ codes "json"
        → file.parsed ≡ some r
        → Reads files rs
        → Reads (file ∷ files) (r ∷ rs)
    is_other :
        {file : ResultFile f} {files : List (ResultFile f)} {rs : List R}
        → file.extension ≢ codes "json"
        → Reads files rs
        → Reads (file ∷ files) rs
    is_unreadable :
        {file : ResultFile f} {files : List (ResultFile f)} {rs : List R}
        → file.parsed ≡ none
        → Reads files rs
        → Reads (file ∷ files) rs

  parsed_one :
      (file : ResultFile f) (files : List (ResultFile f)) (rs : List R)
      → Reads files rs
      → file.extension ≡ codes "json"
      → (o : Option R) → file.parsed ≡ o
      → Reads (file ∷ files) (elim o [ none ↦ rs | some r ↦ r ∷ rs ])
  parsed_one file files rs rest e none p = is_unreadable p rest
  parsed_one file files rs rest e (some r) p = is_result e p rest

  parsed_results-Reads : (files : List (ResultFile f)) → Reads files (parsed_results f files)
  unfolding parsed_results
  parsed_results-Reads [] = no_file
  parsed_results-Reads (file ∷ files) =
      let rest = parsed_results-Reads files in
      let named = text_eq_iff file.extension (codes "json") in
      elim (Bool-cases (text_eq file.extension (codes "json"))) [
        | inl e ↦
            rw (e, parsed_results)
              (parsed_one file files (parsed_results f files) rest (named.0 e) file.parsed refl)
        | inr e ↦ rw (e, parsed_results) (is_other (λ same. false≢true (sym e ∙ named.1 same)) rest)
      ]

  -- What is less comes in front.
  IsLess-cmp_num : (a b : f.Num) → IsLess a b → cmp_num f a b ≡ Ordering.lt
  IsLess-cmp_num a b h = rw (h) refl

  cmp_num-IsLess : (a b : f.Num) → cmp_num f a b ≡ Ordering.lt → IsLess a b
  cmp_num-IsLess a b h = of_option (f.partial_cmp a b) h
    where
      of_option : (o : Option Ordering) → or_equal o ≡ Ordering.lt → o ≡ some Ordering.lt
      of_option none h = absurd cc
      of_option (some x) h = ap some h

  module _ (o : NumbersAreOrdered) where
    behind : (a b : f.Num) → IsLess b a → cmp_num f a b ≡ Ordering.gt
    behind a b h = o.reversed b a ∙ ap reverse_order (IsLess-cmp_num b a h)

    tied : (a b : f.Num) → AreTied a b → cmp_num f a b ≡ Ordering.eq
    tied a b h = by_order (cmp_num f a b) refl
      where
        by_order : (x : Ordering) → cmp_num f a b ≡ x → cmp_num f a b ≡ Ordering.eq
        by_order Ordering.lt e = absurd (h.0 (cmp_num-IsLess a b e))
        by_order Ordering.eq e = e
        by_order Ordering.gt e =
            absurd (h.1 (cmp_num-IsLess b a (o.reversed a b ∙ ap reverse_order e)))

    even : (p q : Bool) → p ≡ q → cmp_bool p q ≡ Ordering.eq
    even true q e = rw (sym e) refl
    even false q e = rw (sym e) refl

    beaten : (a b : R) → Beats b a → compare_results f a b ≡ Ordering.gt
    beaten a b (by_tests p q) = rw (p, q) refl
    beaten a b (by_rate p r) = rw (even _ _ p, behind b.pass_rate a.pass_rate r) refl
    beaten a b (by_score p r s) =
        rw (even _ _ p, tied b.pass_rate a.pass_rate r, behind (score f b) (score f a) s) refl
    beaten a b (by_cost p r s c) =
        rw
          (
            even _ _ p,
            tied b.pass_rate a.pass_rate r,
            tied (score f b) (score f a) s,
            behind (effective_cost f a) (effective_cost f b) c,
          )
          refl
    beaten a b (by_throughput p r s c t) =
        rw
          (
            even _ _ p,
            tied b.pass_rate a.pass_rate r,
            tied (score f b) (score f a) s,
            tied (effective_cost f a) (effective_cost f b) (c.1, c.0),
            behind (throughput f b) (throughput f a) t,
          )
          refl

    ranked : (rs : List R) → IsSortedBy (compare_results f) rs → IsRanked rs
    ranked [] _ = tt
    ranked (a ∷ rs) (h, hs) = (unbeaten rs h, ranked rs hs)
      where
        unbeaten :
            (bs : List R)
            → All (λ b. compare_results f a b ≢ Ordering.gt) bs
            → All (λ b. ¬ Beats b a) bs
        unbeaten [] _ = tt
        unbeaten (b ∷ bs) (k, ks) = (λ beats. k (beaten a b beats), unbeaten bs ks)

  -- If the numbers are ordered, load_all returns the results of the files with the extension `json` that can
  -- be read and parsed, each as often, and none of them behind one that it beats: by passing all of
  -- its tests, and then by the pass rate, the score, the cost and the throughput.
  pub load_all-IsRanked :
      NumbersAreOrdered
      → (files : List (ResultFile f))
      → ((rs : List R) × Reads files rs × Perm (load_all f files) rs) × IsRanked (load_all f files)
  unfolding load_all
  load_all-IsRanked o files =
      let rs = parsed_results f files in
      (
        (rs, parsed_results-Reads files, sort_by-perm (compare_results f) rs),
        ranked o (load_all f files) (sorted o files),
      )

-- ===== src/Search/Ranking.antt =====
-- image_search/bof_core/src/searcher.cc: the ranking of the merged results, and what CommonSearch of
-- image_search/searchd sets before it and reads behind it. A `float` is its bit pattern.
pub mod Scores
pub mod Order
use mlsimgsearch.Prelude.{if◌then◌else◌, ℕ, Bool, ◌&&◌, List, [], ◌∷◌}
use mlsimgsearch.Search.Searcher.{MergeSimilarInfo, Results}

pub record SearchResultItem : Type 0 where
  pub pic_id : ℕ
  pub sim : ℕ

-- What `Rank` does with floats: `a > 0`, `sim / sqrt(pow * query_pow)`, `a > 0.1` and `a > b`. The
-- pattern 0 is 0.0f.
pub record RankOps : Type 0 where
  pub is_positive : ℕ → Bool
  pub cosine : ℕ → ℕ → ℕ → ℕ
  pub is_enough : ℕ → Bool
  pub greater : ℕ → ℕ → Bool

-- The state of a `Searcher` that ranks: `query_pow_` with `result_similar_`, and `result_.items_`.
pub record Searcher : Type 0 where
  pub merged_ : Results
  pub items : List SearchResultItem

unfoldable pub set_result_similar : List MergeSimilarInfo → Searcher → Searcher
set_result_similar similar s = record s {
  merged_ = record { query_pow = s.merged_.query_pow; similar = similar };
}

unfoldable pub get_result_similar : Searcher → List MergeSimilarInfo
get_result_similar s = s.merged_.similar

unfoldable pub set_query_pow : ℕ → Searcher → Searcher
set_query_pow query_pow s = record s {
  merged_ = record { query_pow = query_pow; similar = s.merged_.similar };
}

unfoldable pub get_query_pow : Searcher → ℕ
get_query_pow s = s.merged_.query_pow

unfoldable pub get_result : Searcher → List SearchResultItem
get_result s = s.items

module _ (ops : RankOps) where
  open ops use {is_positive, cosine, is_enough, greater}

  -- The item of one result. A new item has the similarity 0.0f.
  unfoldable pub score : ℕ → MergeSimilarInfo → SearchResultItem
  score query_pow r = record {
    pic_id = r.pic_id;
    sim = if is_positive r.pow && is_positive query_pow then cosine r.sim r.pow query_pow else 0;
  }

  -- The loop of `Rank`. `Wgc` of each result only reads its histogram, and its answer is not used.
  unfoldable pub scores : ℕ → List MergeSimilarInfo → List SearchResultItem
  unfolding score
  scores query_pow [] = []
  scores query_pow (r ∷ rs) =
      let item = score query_pow r in
      let others = scores query_pow rs in if is_enough item.sim then item ∷ others else others

  -- `sort` by `_cmp_search_result_item`. It leaves the order of items with equal similarities open;
  -- here the one inserted last stands first.
  unfoldable pub insert_item : SearchResultItem → List SearchResultItem → List SearchResultItem
  insert_item x [] = x ∷ []
  insert_item x (y ∷ ys) =
      let further = y ∷ insert_item x ys in if greater y.sim x.sim then further else x ∷ y ∷ ys

  unfoldable pub sort : List SearchResultItem → List SearchResultItem
  unfolding insert_item
  sort [] = []
  sort (x ∷ xs) = insert_item x (sort xs)

  -- `Rank`
  unfoldable pub rank : Searcher → Searcher
  unfolding scores sort
  rank s = record s { items = sort (scores s.merged_.query_pow s.merged_.similar) }

  -- What `CommonSearch::Process` does with the merged results, from a new `Searcher` on.
  unfoldable pub search_result : List MergeSimilarInfo → ℕ → Searcher → List SearchResultItem
  unfolding rank set_result_similar set_query_pow get_result
  search_result similar query_pow s =
      get_result (rank (set_query_pow query_pow (set_result_similar similar s)))

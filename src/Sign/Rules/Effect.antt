-- ===== src/Sign/Rules/Effect.antt =====
-- Which headers the rules let through.
use jfrog_registry_operator.Base.{Text, str, not, ◌&&◌, elem, arith, ◌≡◌}
use jfrog_registry_operator.Sign.Rules.{
  has_prefix_fold, matches_any, is_valid, ignored_names, ignored_headers, required_names,
  allowed_query_hoisting,
}

-- A header is signed exactly when it is none of the ignored ones.
pub ignored_headers_lem :
    (value : Text) → is_valid ignored_headers value ≡ not (elem value ignored_names)
unfolding is_valid
ignored_headers_lem value = ground arith

-- A header may become a query parameter exactly when its name begins with X-Amz-, in any case, and is
-- neither a required one nor begins with X-Amz-Meta-.
pub allowed_query_hoisting_lem :
    (value : Text)
    → is_valid allowed_query_hoisting value ≡ (
        has_prefix_fold value (str "X-Amz-")
        && not (elem value required_names)
        && not (has_prefix_fold value (str "X-Amz-Meta-")))
unfolding is_valid matches_any
allowed_query_hoisting_lem value = ground arith

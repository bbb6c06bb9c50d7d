-- ===== src/SurveyFlow.antt =====
-- The links that take a respondent to the provider (surveys/survey_flow.py): the query of InnovateMR's
-- and of BioBrain's. The reading and writing of URLs (urllib) and `str.casefold`, `str.strip` are
-- parameters; a query is its pairs in their order.
pub mod Routed
mod Tests
use quant_tool.Base.{
  ℕ, String, str_eq, starts_with, Bool, true, false, not, ◌&&◌, ◌||◌, Option, none, some, List, [],
  ◌∷◌, ◌++◌, if◌then◌else◌,
}
use quant_tool.Base.Lists.{any, select}

abbrev pub Pair : Type 0
Pair = String × String

abbrev pub same_pair : Pair → Pair → Bool
same_pair (k, v) (l, w) = str_eq k l && str_eq v w

-- One answer: its question's key and the values for the provider.
pub record Answer : Type 0 where
  pub question_key : String
  pub upstream_values : List (Option String)

-- `reserved_keys`
abbrev pub is_reserved_key : String → Bool
is_reserved_key key =
    str_eq key "pid" || str_eq key "trackid" || str_eq key "survnum" || str_eq key "supcode"

module _ (casefold strip : String → String) where
  -- The loop over the values of one answer, after the pairs so far
  unfoldable pub value_pairs : String → List (Option String) → List Pair → List Pair
  value_pairs key [] pairs = pairs
  value_pairs key (none ∷ values) pairs = value_pairs key values pairs
  value_pairs key (some value ∷ values) pairs =
      let pair : Pair = (key, strip value) in
      let same = value_pairs key values pairs in
      let more = value_pairs key values (pairs ++ pair ∷ []) in
      if str_eq (strip value) "" || any (same_pair pair) pairs then same else more

  -- The loop over the answers
  unfoldable pub profile_pairs : List Answer → List Pair → List Pair
  unfolding value_pairs
  profile_pairs [] pairs = pairs
  profile_pairs (answer ∷ answers) pairs =
      let key = strip answer.question_key in
      let same = profile_pairs answers pairs in
      let more = profile_pairs answers (value_pairs key answer.upstream_values pairs) in
      if str_eq key "" || is_reserved_key (casefold key) then same else more

  abbrev pub has_profile_key : List Pair → String → Bool
  has_profile_key pairs lowered = any (λ pair. str_eq (casefold pair.0) lowered) pairs

  -- The loop over the link's own query
  unfoldable pub link_pairs : String → List Pair → List Pair → List Pair
  link_pairs rid pairs [] = []
  link_pairs rid pairs ((key, value) ∷ query) =
      let rest = link_pairs rid pairs query in
      if str_eq (casefold key) "pid"
      then (key, rid) ∷ rest
      else if not (str_eq (casefold key) "trackid") && not (has_profile_key pairs (casefold key))
      then (key, value) ∷ rest
      else rest

  -- `build_outbound_url`, its query
  unfoldable pub build_outbound_url : List Pair → String → List Answer → List Pair
  unfolding profile_pairs link_pairs
  build_outbound_url query rid answers =
      let pairs = profile_pairs answers [] in
      let has_pid = any (λ pair. str_eq (casefold pair.0) "pid") query in
      link_pairs rid pairs query
      ++ ((if has_pid then [] else ("PID", rid) ∷ []) ++ ("trackId", rid) ∷ pairs)

  -- `reserved` of BioBrain's link, and the profile parameters
  unfoldable pub is_reserved_vq : String → Bool
  is_reserved_vq key =
      str_eq key "vq_token"
      || str_eq key "vq_uid"
      || str_eq key "pid"
      || str_eq key "trackid"
      || str_eq key "age"
      || str_eq key "gender"
      || str_eq key "zip"
      || starts_with key "q"

  -- `build_biobrain_outbound_url`, the query for a link of the provider's own host
  unfoldable pub build_biobrain_outbound_url : List Pair → String → List Pair
  build_biobrain_outbound_url query rid =
      select (λ pair. not (is_reserved_vq (casefold pair.0))) query
      ++ ("vq_token", rid) ∷ ("vq_uid", rid) ∷ []

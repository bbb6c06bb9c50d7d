-- ===== src/SignedRedirects.antt =====
-- surveys/innovatemr_callbacks.py: the signature of a provider's redirect. A query is its segments
-- between "&", each with the text before "=" and the text after it, if there is one. The decoding of
-- names and values, the HMAC, the building of a URL and the comparison of digests are arguments.
pub mod Valid
mod Tests
use quant_tool.Base.{
  ℕ, ◌+◌, String, str_eq, Bool, true, false, not, ◌||◌, Option, none, some, List, [], ◌∷◌, ◌==◌,
  if◌then◌else◌,
}
use quant_tool.Base.Lists.{any}
use quant_tool.Base.Result.{Result, ok, err}

pub record Segment : Type 0 where
  pub raw_name : String
  pub raw_value : Option String

-- SUPPORTED_ALGORITHMS
pub data Algorithm : Type 0 where
  sha256 sha1 md5 : Algorithm

-- The texts of `CallbackVerification.error`.
pub data Error : Type 0 where
  not_configured unsupported_algorithm missing_or_duplicate_hash empty_hash : Error
  hash_mismatch : Error

-- What is read of the libraries and the settings. `is_hash_name` tells of a raw name whether it is
-- one of HASH_PARAMETER_NAMES, `received` decodes and strips a raw value; `request_url` and
-- `public_url` put a query on the request's URL and on PUBLIC_APP_BASE_URL, where that is set.
pub record Library : Type 0 where
  pub is_hash_name : String → Bool
  pub received : String → String
  pub hmac : Algorithm → String → String → String
  pub same_digest : String → String → Bool
  pub request_url : List Segment → String
  pub public_url : Option (List Segment → String)

abbrev pub raw_text : Option String → String
raw_text none = ""
raw_text (some value) = value

module _ (lib : Library) where
  abbrev pub is_hash : Segment → Bool
  is_hash s = lib.is_hash_name s.raw_name

  -- The matches of the loop in `_unsigned_query_and_hash`, from the index `n` on.
  unfoldable pub hash_matches : ℕ → List Segment → List (ℕ × String)
  hash_matches n [] = []
  hash_matches n (s ∷ segments) =
      let rest = hash_matches (n + 1) segments in
      if is_hash s then (n, lib.received (raw_text s.raw_value)) ∷ rest else rest

  -- `del segments[index]`, where `segments` begins at the index `n`
  unfoldable pub delete_segment : ℕ → ℕ → List Segment → List Segment
  delete_segment n index [] = []
  delete_segment n index (s ∷ segments) =
      let rest = delete_segment (n + 1) index segments in if n == index then segments else s ∷ rest

  -- `segments[index] = f"{raw_name}="`
  unfoldable pub empty_segment : ℕ → ℕ → List Segment → List Segment
  empty_segment n index [] = []
  empty_segment n index (s ∷ segments) =
      let rest = empty_segment (n + 1) index segments in
      if n == index then record s { raw_value = some "" } ∷ segments else s ∷ rest

  -- `_unsigned_query_and_hash`
  unfoldable pub unsigned_query_and_hash : Bool → List Segment → Option (List Segment × String)
  unfolding hash_matches delete_segment empty_segment
  unsigned_query_and_hash remove_hash_parameter segments = elim (hash_matches 0 segments) [
    | [] ↦ none
    | (index, hash) ∷ more ↦ elim more [
      | [] ↦ some (
        if remove_hash_parameter
            then delete_segment 0 index segments
            else empty_segment 0 index segments,
        hash,
      )
      | _ ∷ _ ↦ none
    ]
  ]

  -- `_candidate_unsigned_urls`
  unfoldable pub candidate_unsigned_urls : List Segment → List String
  candidate_unsigned_urls query = elim lib.public_url [
    | none ↦ lib.request_url query ∷ []
    | some url ↦
        if str_eq (url query) (lib.request_url query)
        then lib.request_url query ∷ []
        else lib.request_url query ∷ url query ∷ []
  ]

  -- `_verify_callback_request`; `algorithm` is none where the setting names none of the supported.
  unfoldable pub verify_callback_request :
      String → Option Algorithm → Bool → List Segment → Result Error (Unit {0})
  unfolding unsigned_query_and_hash candidate_unsigned_urls
  verify_callback_request secret algorithm remove_hash_parameter segments =
      if str_eq secret "" then err not_configured else elim algorithm [
        | none ↦ err unsupported_algorithm
        | some a ↦ elim (unsigned_query_and_hash remove_hash_parameter segments) [
          | none ↦ err missing_or_duplicate_hash
          | some (query, hash) ↦
              if str_eq hash ""
              then err empty_hash
              else if any (λ url. lib.same_digest hash (lib.hmac a secret url))
                  (candidate_unsigned_urls query)
              then ok tt
              else err hash_mismatch
        ]
      ]

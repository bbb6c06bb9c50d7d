-- ===== src/SignedRedirects/Tests.antt =====
-- A redirect "pid=7&hash=abc" under an HMAC that gives a fixed digest.
use quant_tool.Base.{
  ◌≡◌, refl, String, str_eq, true, false, none, some, List, [], ◌∷◌, if◌then◌else◌,
}
use quant_tool.Base.Lists.{any}
use quant_tool.Base.Result.{ok, err}
use quant_tool.SignedRedirects.{
  Segment, Algorithm, sha256, missing_or_duplicate_hash, Library, hash_matches, delete_segment,
  empty_segment, unsigned_query_and_hash, candidate_unsigned_urls, verify_callback_request,
}
use quant_tool.SignedRedirects.Valid.{Unsigned, valid_is_signed}

abbrev url : List Segment → String
url [] = "empty"
url (s ∷ segments) = s.raw_name

abbrev if_pid : String → String
if_pid text = if str_eq text "pid" then "abc" else "other"

abbrev lib : Library
lib = record {
  is_hash_name = λ name. str_eq name "hash";
  received = λ value. value;
  hmac = λ algorithm secret text. if_pid text;
  same_digest = str_eq;
  request_url = url;
  public_url = none;
}

abbrev query : List Segment
query =
    record { raw_name = "pid"; raw_value = some "7" }
    ∷ record { raw_name = "hash"; raw_value = some "abc" }
    ∷ []

valid : verify_callback_request lib "key" (some sha256) true query ≡ ok tt
unfolding verify_callback_request unsigned_query_and_hash hash_matches delete_segment empty_segment
    candidate_unsigned_urls
valid = refl

-- A second hash parameter is refused, whatever it holds.
duplicated :
    verify_callback_request lib "key"
      (some sha256)
      true
      (record { raw_name = "hash"; raw_value = none } ∷ query)
    ≡ err missing_or_duplicate_hash
unfolding verify_callback_request unsigned_query_and_hash hash_matches delete_segment empty_segment
    candidate_unsigned_urls
duplicated = refl

valid_is_signed_example :
    (a : Algorithm) × (unsigned : List Segment) × (hash : String) × (some sha256 ≡ some a)
    × Unsigned lib true query unsigned hash
    × (any
          (λ text. lib.same_digest hash (lib.hmac a "key" text))
          (candidate_unsigned_urls lib unsigned)
        ≡ true)
    × (str_eq "key" "" ≡ false)
valid_is_signed_example = valid_is_signed lib "key" (some sha256) true query valid

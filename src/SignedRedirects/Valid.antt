-- ===== src/SignedRedirects/Valid.antt =====
-- What a redirect that passes the check has shown.
use quant_tool.Base.{
  ℕ, ◌+◌, ◌≤◌, ◌≡◌, refl, ap, sym, subst, some_same, ◌∙◌, String, str_eq, Bool, true, false, not,
  Option, none, some, List, [], ◌∷◌, arith, ◌==◌, ==_refl, inl, inr, ◌⊎◌, Option-cases, Bool-cases,
  if◌then◌else◌,
}
use quant_tool.Base.Lists.{any, select}
use quant_tool.Base.Result.{ok}
use quant_tool.SignedRedirects.{
  Segment, Algorithm, Library, raw_text, is_hash, hash_matches, delete_segment, empty_segment,
  unsigned_query_and_hash, candidate_unsigned_urls, verify_callback_request,
}

List-cases : {A : Type 0} (xs : List A) → (xs ≡ []) ⊎ ((x : A) × (rest : List A) × (xs ≡ x ∷ rest))
List-cases [] = inl refl
List-cases (x ∷ xs) = inr (x, xs, refl)

module _ (lib : Library) where
  abbrev pub hash_segments : List Segment → List Segment
  hash_segments = select (is_hash lib)

  abbrev pub other_segments : List Segment → List Segment
  other_segments = select (λ s. not (is_hash lib s))

  without_match :
      (n : ℕ) (segments : List Segment)
      → hash_matches lib n segments ≡ []
      → (hash_segments segments ≡ []) × (other_segments segments ≡ segments)
  unfolding hash_matches
  without_match n [] e = (refl, refl)
  without_match n (s ∷ segments) e = ground (arith, without_match (n + 1) segments)

  match_after :
      (n index : ℕ) (hash : String) (more : List (ℕ × String)) (segments : List Segment)
      → hash_matches lib n segments ≡ (index, hash) ∷ more
      → n ≤ index
  unfolding hash_matches
  match_after n index hash more [] e = cc
  match_after n index hash more (s ∷ segments) e =
      ground (arith, match_after (n + 1) index hash more segments)

  -- The query's one hash parameter, and the query without its value.
  pub record Unsigned (remove : Bool) (segments query : List Segment) (hash : String) : Type 0 where
    pub signature : Segment
    pub only : hash_segments segments ≡ signature ∷ []
    pub own : hash ≡ lib.received (raw_text signature.raw_value)
    pub others : other_segments query ≡ other_segments segments
    pub left :
        hash_segments query ≡ (if remove then [] else record signature { raw_value = some "" } ∷ [])

  signed_head :
      (remove : Bool) (s : Segment) (segments : List Segment) (hash : String)
      → is_hash lib s ≡ true
      → hash ≡ lib.received (raw_text s.raw_value)
      → (hash_segments segments ≡ []) × (other_segments segments ≡ segments)
      → Unsigned remove
          (s ∷ segments)
          (if remove then segments else record s { raw_value = some "" } ∷ segments)
          hash
  signed_head true s segments hash signed h w = record {
    signature = s;
    only = rw (signed, w.0) refl;
    own = h;
    others = rw signed refl;
    left = w.0;
  }
  signed_head false s segments hash signed h w = record {
    signature = s;
    only = rw (signed, w.0) refl;
    own = h;
    others = rw signed refl;
    left = rw (signed, w.0) refl;
  }

  plain_head :
      (remove : Bool) (s : Segment) (segments query : List Segment) (hash : String)
      → is_hash lib s ≡ false
      → Unsigned remove segments query hash
      → Unsigned remove (s ∷ segments) (s ∷ query) hash
  plain_head remove s segments query hash plain u = record {
    signature = u.signature;
    only = rw plain u.only;
    own = u.own;
    others = rw plain (ap (λ rest. s ∷ rest) u.others);
    left = rw plain u.left;
  }

  plain_either :
      (remove : Bool) (s : Segment) (segments deleted emptied : List Segment) (hash : String)
      → is_hash lib s ≡ false
      → Unsigned remove segments (if remove then deleted else emptied) hash
      → Unsigned remove (s ∷ segments) (if remove then s ∷ deleted else s ∷ emptied) hash
  plain_either true s segments deleted emptied = plain_head true s segments deleted
  plain_either false s segments deleted emptied = plain_head false s segments emptied

  one_match :
      (remove : Bool) (n index : ℕ) (hash : String) (segments : List Segment)
      → hash_matches lib n segments ≡ (index, hash) ∷ []
      → Unsigned remove segments
          (if remove
            then delete_segment lib n index segments
            else empty_segment lib n index segments)
          hash
  unfolding hash_matches delete_segment empty_segment
  one_match remove n index hash [] e = cc
  one_match remove n index hash (s ∷ segments) e = elim (Bool-cases (is_hash lib s)) [
    | inl signed ↦
        let m : hash_matches lib (n + 1) segments ≡ [] = ground (arith, e) in
        let w = without_match (n + 1) segments m in
        let i : n ≡ index = ground (arith, e) in
        let h : hash ≡ lib.received (raw_text s.raw_value) = ground (arith, e) in
        rw (i, ==_refl index) (signed_head remove s segments hash signed h w)
    | inr plain ↦
        let m : hash_matches lib (n + 1) segments ≡ (index, hash) ∷ [] = ground (arith, e) in
        let above = match_after (n + 1) index hash [] segments m in
        let ne : n == index ≡ false = ground arith in
        rw ne (
          plain_either remove s segments _ _ hash plain
            (one_match remove (n + 1) index hash segments m))
  ]

  Unsigned-found :
      (remove : Bool) (segments query : List Segment) (hash : String)
      → unsigned_query_and_hash lib remove segments ≡ some (query, hash)
      → Unsigned remove segments query hash
  unfolding unsigned_query_and_hash
  Unsigned-found remove segments query hash e = elim (List-cases (hash_matches lib 0 segments)) [
    | inl without ↦ ground (arith, without, e)
    | inr ((index, h), more, found) ↦ elim (List-cases more) [
      | inr (second, rest, twice) ↦ ground (arith, found, twice, e)
      | inl once ↦
          let same = some_same (sym e ∙ rw (found, once, unsigned_query_and_hash) refl) in
          let only = found ∙ ap (λ rest. (index, h) ∷ rest) once in
          subst (λ p. Unsigned remove segments p.0 p.1) (sym same)
            (one_match remove 0 index h segments only)
    ]
  ]

  -- A redirect that passes the check has one hash parameter. The digest that it carries is the HMAC,
  -- under the configured secret, of one of the candidate URLs for the query in which that parameter
  -- was removed or emptied, and all other parameters stand as they came.
  pub valid_is_signed :
      (secret : String) (algorithm : Option Algorithm) (remove : Bool) (segments : List Segment)
      → verify_callback_request lib secret algorithm remove segments ≡ ok tt
      → (a : Algorithm) × (query : List Segment) × (hash : String) × (algorithm ≡ some a)
        × Unsigned remove segments query hash
        × (any
              (λ url. lib.same_digest hash (lib.hmac a secret url))
              (candidate_unsigned_urls lib query)
            ≡ true)
        × (str_eq secret "" ≡ false)
  unfolding verify_callback_request
  valid_is_signed secret none remove segments e = ground (arith, e)
  valid_is_signed secret (some a) remove segments e =
      elim (Option-cases (unsigned_query_and_hash lib remove segments)) [
        | inl ambiguous ↦ ground (arith, e, ambiguous)
        | inr ((query, hash), found) ↦ (
          a,
          query,
          hash,
          refl,
          Unsigned-found remove segments query hash found,
          ground (arith, e, found),
          ground (arith, e, found),
        )
      ]

-- ===== src/SurveyFlow/Routed.antt =====
-- What the link names as the respondent is the attempt's RID (surveys/survey_flow.py).
use quant_tool.Base.{
  String, str_eq, starts_with, eq_refl, ◌≡◌, refl, ◌∙◌, Bool, true, false, not, ◌&&◌, ◌||◌, Option,
  none, some, List, [], ◌∷◌, ◌++◌, arith, inl, inr, Bool-cases, if◌then◌else◌,
}
use quant_tool.Base.Lists.{any, select}
use quant_tool.SurveyFlow.{
  Pair, same_pair, Answer, is_reserved_key, value_pairs, profile_pairs, link_pairs,
  build_outbound_url, is_reserved_vq, build_biobrain_outbound_url,
}

abbrev pub each : (Pair → Bool) → List Pair → Bool
each p [] = true
each p (pair ∷ pairs) = p pair && each p pairs

each_join : (p : Pair → Bool) (xs ys : List Pair) → each p (xs ++ ys) ≡ each p xs && each p ys
each_join p [] ys = refl
each_join p (x ∷ xs) ys = ground (arith, each_join p xs ys)

or_right : (a b : Bool) → b ≡ true → a || b ≡ true
or_right a b e = ground arith

both : (a b : Bool) → a ≡ true → b ≡ true → a && b ≡ true
both a b e f = ground arith

or_left : (a b : Bool) → a ≡ true → a || b ≡ true
or_left a b e = ground arith

each-select :
    (p q : Pair → Bool) (xs : List Pair)
    → ((x : Pair) → p x ≡ true → q x ≡ true)
    → each q (select p xs) ≡ true
each-select p q [] h = refl
each-select p q (x ∷ xs) h = elim (Bool-cases (p x)) [
  | inl kept ↦ rw (kept, h x kept, each-select p q xs h) refl
  | inr out ↦ rw out (each-select p q xs h)
]

-- A parameter of BioBrain's link that says who the respondent is, or something of the profile: the
-- two identifiers, those of the other links, and the answers, by name or by a number after a q.
abbrev pub names_respondent : String → Bool
names_respondent key =
    starts_with key "q"
    || any (str_eq key) ("vq_uid" ∷ "vq_token" ∷ "trackid" ∷ "pid" ∷ "zip" ∷ "gender" ∷ "age" ∷ [])

module _ (casefold strip : String → String) (rid : String) where
  -- A parameter that names the respondent has the RID.
  abbrev pub is_routed : Pair → Bool
  is_routed (key, value) =
      not (str_eq (casefold key) "pid" || str_eq (casefold key) "trackid") || str_eq value rid

  abbrev own_pid : Bool → List Pair
  own_pid b = if b then [] else ("PID", rid) ∷ []

  values_routed :
      (key : String) (values : List (Option String)) (pairs : List Pair)
      → is_reserved_key (casefold key) ≡ false
      → each is_routed pairs ≡ true
      → each is_routed (value_pairs casefold strip key values pairs) ≡ true
  unfolding value_pairs
  values_routed key [] pairs free h = h
  values_routed key (none ∷ values) pairs free h = values_routed key values pairs free h
  values_routed key (some value ∷ values) pairs free h =
      let pair : Pair = (key, strip value) in
      let joined : each is_routed (pairs ++ pair ∷ []) ≡ true =
        ground (arith, each_join is_routed pairs (pair ∷ []), h, free) in
      let same = values_routed key values pairs free h in
      let more = values_routed key values (pairs ++ pair ∷ []) free joined in
      elim (Bool-cases (str_eq (strip value) "" || any (same_pair pair) pairs)) [
        | inl skipped ↦ rw skipped same
        | inr taken ↦ rw taken more
      ]

  profile_routed :
      (answers : List Answer) (pairs : List Pair)
      → each is_routed pairs ≡ true
      → each is_routed (profile_pairs casefold strip answers pairs) ≡ true
  unfolding profile_pairs
  profile_routed [] pairs h = h
  profile_routed (answer ∷ answers) pairs h =
      let key = strip answer.question_key in
      elim (Bool-cases (str_eq key "" || is_reserved_key (casefold key))) [
        | inl skipped ↦ rw skipped (profile_routed answers pairs h)
        | inr taken ↦ rw taken (
            profile_routed answers (value_pairs casefold strip key answer.upstream_values pairs)
              (values_routed key answer.upstream_values pairs (ground (arith, taken)) h))
      ]

  link_routed :
      (pairs query : List Pair) → each is_routed (link_pairs casefold strip rid pairs query) ≡ true
  unfolding link_pairs
  link_routed pairs [] = refl
  link_routed pairs ((key, value) ∷ query) = ground (arith, link_routed pairs query, eq_refl rid)

  reserves : (key : String) → names_respondent key ≡ true → is_reserved_vq casefold strip key ≡ true
  unfolding is_reserved_vq
  reserves key e = ground arith

  abbrev pub is_routed_vq : Pair → Bool
  is_routed_vq (key, value) = not (names_respondent (casefold key)) || str_eq value rid

  kept_unnamed :
      (key : String)
      → not (is_reserved_vq casefold strip key) ≡ true
      → not (names_respondent key) ≡ true
  kept_unnamed key e = elim (Bool-cases (names_respondent key)) [
    | inl named ↦ let f = reserves key named in ground arith
    | inr other ↦ rw other refl
  ]

  kept_routed :
      (query : List Pair)
      → each is_routed_vq
          (select (λ pair. not (is_reserved_vq casefold strip (casefold pair.0))) query)
        ≡ true
  kept_routed query =
      each-select (λ pair. not (is_reserved_vq casefold strip (casefold pair.0))) is_routed_vq query
        (λ pair e. or_left _ (str_eq pair.1 rid) (kept_unnamed (casefold pair.0) e))

  rid_routed : (pair : Pair) → str_eq pair.1 rid ≡ true → is_routed_vq pair ≡ true
  rid_routed (key, value) e = or_right _ (str_eq value rid) e

  own_vq_routed : (token uid : String) → each is_routed_vq ((token, rid) ∷ (uid, rid) ∷ []) ≡ true
  own_vq_routed token uid =
      let self = eq_refl rid in
      both _ _ (rid_routed (token, rid) self) (both _ _ (rid_routed (uid, rid) self) refl)

  own_routed : (b : Bool) → each is_routed (own_pid b) ≡ true
  own_routed true = refl
  own_routed false = let self = eq_refl rid in ground (arith, self)

  -- In the query of InnovateMR's link every parameter called pid or trackid in any case has the RID as
  -- its value, whatever the provider's own link and the answers contain; in that of BioBrain's link,
  -- every parameter called vq_token, vq_uid, pid, trackid, age, gender or zip or that begins with a q,
  -- in any case, has.
  pub outbound_routed :
      (query : List Pair) (answers : List Answer)
      → (each is_routed (build_outbound_url casefold strip query rid answers) ≡ true)
        × (each is_routed_vq (build_biobrain_outbound_url casefold strip query rid) ≡ true)
  unfolding build_outbound_url build_biobrain_outbound_url
  outbound_routed query answers =
      let pairs = profile_pairs casefold strip answers [] in
      let own = own_pid (any (λ pair. str_eq (casefold pair.0) "pid") query) in
      let profile = profile_routed answers [] refl in
      let link = link_routed pairs query in
      let self = eq_refl rid in
      let rest : each is_routed (own ++ ("trackId", rid) ∷ pairs) ≡ true =
        each_join is_routed own (("trackId", rid) ∷ pairs)
        ∙ ground (
          arith,
          own_routed (any (λ pair. str_eq (casefold pair.0) "pid") query),
          profile,
          self,
        ) in
      let all : each is_routed
            (link_pairs casefold strip rid pairs query ++ (own ++ ("trackId", rid) ∷ pairs))
          ≡ true =
        each_join is_routed (link_pairs casefold strip rid pairs query)
          (own ++ ("trackId", rid) ∷ pairs)
        ∙ ground (arith, link, rest) in
      (
        all,
        each_join is_routed_vq
              (select (λ pair. not (is_reserved_vq casefold strip (casefold pair.0))) query)
              (("vq_token", rid) ∷ ("vq_uid", rid) ∷ [])
            ∙ both _ _ (kept_routed query) (own_vq_routed "vq_token" "vq_uid"),
      )

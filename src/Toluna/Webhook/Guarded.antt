-- ===== src/Toluna/Webhook/Guarded.antt =====
-- Whose notifications the endpoint takes (surveys/webhook_views.py).
use quant_tool.Base.{
  ℕ, String, str_eq, ◌≡◌, refl, ap, sym, ◌∙◌, some_same, ◌==◌, ==→eq, if◌then◌else◌, ◌||◌, Bool,
  true, false, ◌&&◌, ◌⊎◌, Option, none, some, List, [], ◌∷◌, ◌++◌, arith, inl, inr, Bool-cases,
  Option-cases,
}
use Prim.Native.String.{◌++◌ as append}
use quant_tool.Base.Lists.{any}
use quant_tool.Toluna.{
  EventType, member_complete, member_terminate, enhanced_termination, quota_status, survey_closed,
  reconciliation, Db,
}
use quant_tool.Toluna.Ingest.{Identity}
use quant_tool.Toluna.Webhook.{
  Settings, Request, reversed, is_in_networks, first_untrusted, notification_source_ip,
  valid_member_status_hmac, is_signed_event, refusal, post,
}

append_assoc : (xs ys zs : List (Option ℕ)) → (xs ++ ys) ++ zs ≡ xs ++ (ys ++ zs)
append_assoc [] ys zs = refl
append_assoc (x ∷ xs) ys zs = ap (λ l. x ∷ l) (append_assoc xs ys zs)

append_nil : (xs : List (Option ℕ)) → xs ++ [] ≡ xs
append_nil [] = refl
append_nil (x ∷ xs) = ap (λ l. x ∷ l) (append_nil xs)

reversed_join : (xs ys : List (Option ℕ)) → reversed (xs ++ ys) ≡ reversed ys ++ reversed xs
unfolding reversed
reversed_join [] ys = sym (append_nil (reversed ys))
reversed_join (x ∷ xs) ys =
    ap (λ l. l ++ x ∷ []) (reversed_join xs ys) ∙ append_assoc (reversed ys) (reversed xs) (x ∷ [])

-- A notification of what became of a member
abbrev pub is_of_member : EventType → Bool
is_of_member member_complete = true
is_of_member member_terminate = true
is_of_member enhanced_termination = false
is_of_member quota_status = false
is_of_member survey_closed = false
is_of_member reconciliation = false

module _ (in_network : ℕ → ℕ → Bool) where
  -- Every hop is an address of a trusted proxy.
  abbrev pub all_trusted : List ℕ → List (Option ℕ) → Bool
  all_trusted trusted_proxies [] = true
  all_trusted trusted_proxies (hop ∷ hops) =
      is_in_networks in_network hop trusted_proxies && all_trusted trusted_proxies hops

  trusted_join :
      (trusted_proxies : List ℕ) (xs ys : List (Option ℕ))
      → all_trusted trusted_proxies (xs ++ ys)
        ≡ all_trusted trusted_proxies xs && all_trusted trusted_proxies ys
  trusted_join trusted_proxies [] ys = refl
  trusted_join trusted_proxies (x ∷ xs) ys = ground (arith, trusted_join trusted_proxies xs ys)

  trusted_reversed :
      (trusted_proxies : List ℕ) (xs : List (Option ℕ))
      → all_trusted trusted_proxies xs ≡ true
      → all_trusted trusted_proxies (reversed xs) ≡ true
  unfolding reversed
  trusted_reversed trusted_proxies [] h = refl
  trusted_reversed trusted_proxies (x ∷ xs) h = ground (
    arith,
    trusted_reversed trusted_proxies xs,
    trusted_join trusted_proxies (reversed xs) (x ∷ []),
  )

  past_trusted :
      (trusted_proxies : List ℕ) (xs ys : List (Option ℕ))
      → all_trusted trusted_proxies xs ≡ true
      → first_untrusted in_network trusted_proxies (xs ++ ys)
        ≡ first_untrusted in_network trusted_proxies ys
  unfolding first_untrusted
  past_trusted trusted_proxies [] ys h = refl
  past_trusted trusted_proxies (none ∷ xs) ys h = cc
  past_trusted trusted_proxies (some x ∷ xs) ys h =
      ground (arith, past_trusted trusted_proxies xs ys)

  module _ (request : Request) (trusted_proxies : List ℕ) (peer : ℕ)
      (e : request.remote_addr ≡ some peer)
      (f : is_in_networks in_network (some peer) trusted_proxies ≡ true) where
    by_header :
        (hop : Option ℕ) (hops : List (Option ℕ))
        → request.forwarded_for ≡ hop ∷ hops
        → notification_source_ip in_network request trusted_proxies
          ≡ first_untrusted in_network trusted_proxies (reversed (hop ∷ hops))
    unfolding notification_source_ip
    by_header hop hops g = ground (arith, e, f, g)

    by_joined :
        (written : List (Option ℕ)) (hop : Option ℕ) (hops : List (Option ℕ))
        → request.forwarded_for ≡ written ++ hop ∷ hops
        → notification_source_ip in_network request trusted_proxies
          ≡ first_untrusted in_network trusted_proxies (reversed (written ++ hop ∷ hops))
    by_joined [] hop hops g = by_header hop hops g
    by_joined (first ∷ rest) hop hops g = by_header first (rest ++ hop ∷ hops) g

  -- Where the peer is a trusted proxy, the source is the last entry of X-Forwarded-For that is not
  -- one, if all after it are: what the caller writes before it changes nothing.
  pub source_behind_proxies :
      (request : Request) (trusted_proxies : List ℕ) (peer client : ℕ)
      (written hops : List (Option ℕ))
      → request.remote_addr ≡ some peer
      → is_in_networks in_network (some peer) trusted_proxies ≡ true
      → request.forwarded_for ≡ written ++ some client ∷ hops
      → all_trusted trusted_proxies hops ≡ true
      → is_in_networks in_network (some client) trusted_proxies ≡ false
      → notification_source_ip in_network request trusted_proxies ≡ some client
  unfolding first_untrusted reversed
  source_behind_proxies request trusted_proxies peer client written hops e f g h i =
      let turned =
        reversed_join written (some client ∷ hops)
        ∙ append_assoc (reversed hops) (some client ∷ []) (reversed written) in
      by_joined request trusted_proxies peer e f written (some client) hops g
      ∙ ap (first_untrusted in_network trusted_proxies) turned
      ∙ past_trusted trusted_proxies (reversed hops) (some client ∷ reversed written)
          (trusted_reversed trusted_proxies hops h)
      ∙ rw i refl

  module _ (hmac_sha256 : String → String → ℕ) where
    -- The digest is the HMAC of the three values that it signs, under the key that is set.
    abbrev pub IsSigned : Settings → Request → Type 0
    IsSigned settings q =
        (str_eq settings.hmac_key "" ≡ false)
        × (q.encrypted_value
            ≡ some (
                hmac_sha256 settings.hmac_key
                  (append (append q.survey_id q.wave_id) q.member_code)))

    -- The source is an address in a network of the allow list, and where signatures are required the
    -- notification of a member is signed.
    abbrev pub IsAuthentic : Settings → EventType → Request → Type 0
    IsAuthentic settings event q =
        (networks : List ℕ) × (trusted_proxies : List ℕ) × (address : ℕ) × (settings.ip_allowlist
          ≡ some networks)
        × (settings.trusted_proxy_ips ≡ some trusted_proxies)
        × (notification_source_ip in_network q trusted_proxies ≡ some address)
        × (any (in_network address) networks ≡ true)
        × ((is_of_member event && settings.require_hmac ≡ false) ⊎ IsSigned settings q)

    of_member_signed :
        (event : EventType) → is_of_member event ≡ is_signed_event in_network hmac_sha256 event
    of_member_signed member_complete = refl
    of_member_signed member_terminate = refl
    of_member_signed enhanced_termination = refl
    of_member_signed quota_status = refl
    of_member_signed survey_closed = refl
    of_member_signed reconciliation = refl

    signed_values :
        (missing : Bool) (supplied : Option ℕ) (digest : ℕ)
        → (if missing then some false else elim supplied as (λ x. Option Bool) [
          | none ↦ some false
          | some x ↦ some (x == digest)
        ])
          ≡ some true
        → supplied ≡ some digest
    signed_values true supplied digest e = cc
    signed_values false none digest e = cc
    signed_values false (some x) digest e = ap some (==→eq x digest (some_same e))

    valid-IsSigned :
        (settings : Settings) (q : Request)
        → valid_member_status_hmac in_network hmac_sha256 settings q ≡ some true
        → IsSigned settings q
    unfolding valid_member_status_hmac
    valid-IsSigned settings q e = elim (Bool-cases (str_eq settings.hmac_key "")) [
      | inl unset ↦ cc (rw (unset, valid_member_status_hmac) at e)
      | inr is_set ↦ (
        is_set,
        signed_values (str_eq q.survey_id "" || str_eq q.wave_id "" || str_eq q.member_code "")
            q.encrypted_value
            (hmac_sha256 settings.hmac_key (append (append q.survey_id q.wave_id) q.member_code))
            (rw (is_set, valid_member_status_hmac) at e),
      )
    ]

    found_in :
        (source : Option ℕ) (networks : List ℕ)
        → is_in_networks in_network source networks ≡ true
        → (address : ℕ) × (source ≡ some address) × (any (in_network address) networks ≡ true)
    found_in none networks e = cc
    found_in (some address) networks e = (address, refl, e)

    passed-IsAuthentic :
        (settings : Settings) (event : EventType) (q : Request)
        → refusal in_network hmac_sha256 settings event q ≡ none
        → IsAuthentic settings event q
    unfolding refusal
    passed-IsAuthentic settings event q e = elim (Option-cases settings.ip_allowlist) [
      | inl f ↦ ground (arith, e, f)
      | inr ([], f) ↦ ground (arith, e, f)
      | inr (n ∷ networks, f) ↦ elim (Option-cases settings.trusted_proxy_ips) [
        | inl g ↦ ground (arith, e, f, g)
        | inr (proxies, g) ↦
            let source : is_in_networks in_network (notification_source_ip in_network q proxies)
                  (n ∷ networks)
                ≡ true =
              ground (arith, e, f, g) in
            let (address, at, listed) =
              found_in (notification_source_ip in_network q proxies) (n ∷ networks) source in
            let of_member = of_member_signed event in
            elim (Bool-cases
              (is_signed_event in_network hmac_sha256 event && settings.require_hmac)) [
                | inr unsigned ↦ (
                  n ∷ networks,
                  proxies,
                  address,
                  f,
                  g,
                  at,
                  listed,
                  inl (ap (λ b. b && settings.require_hmac) of_member ∙ unsigned),
                )
                | inl signed ↦
                    let valid : valid_member_status_hmac in_network hmac_sha256 settings q
                        ≡ some true =
                      ground (arith, e, f, g, source, signed) in
                    (
                      n ∷ networks,
                      proxies,
                      address,
                      f,
                      g,
                      at,
                      listed,
                      inr (valid-IsSigned settings q valid),
                    )
              ]
      ]
    ]

    -- A request changes nothing, or its source is an address in a network of the allow list and, for
    -- the completion or termination of a member where signatures are required, its digest is the HMAC
    -- of survey, wave and member code under a key that is set.
    pub post-IsAuthentic :
        (sha256 : Identity → ℕ) (settings : Settings) (now key : ℕ) (event : EventType)
        (q : Request) (db : Db)
        → ((post in_network hmac_sha256 sha256 settings now key event q db).1 ≡ db)
          ⊎ IsAuthentic settings event q
    unfolding post
    post-IsAuthentic sha256 settings now key event q db =
        elim (Option-cases (refusal in_network hmac_sha256 settings event q)) [
          | inr (refused, e) ↦ inl (ground (arith, e))
          | inl passed ↦ inr (passed-IsAuthentic settings event q passed)
        ]

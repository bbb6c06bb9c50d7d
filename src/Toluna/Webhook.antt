-- ===== src/Toluna/Webhook.antt =====
-- The endpoint that receives Toluna's notifications (surveys/webhook_views.py). A network's test of an
-- address (`ipaddress`) and HMAC-SHA256 are parameters. An address is a number, and a header's entry
-- that is no address is `none`; blank entries are left out, as a blank HTTP_X_REAL_IP. Of the settings a network list that does
-- not parse is `none`.
pub mod Guarded
mod Tests
use quant_tool.Base.{
  ℕ, String, str_eq, Bool, true, false, not, ◌&&◌, ◌||◌, Option, none, some, List, [], ◌∷◌, ◌++◌,
  ◌==◌, is_none, if◌then◌else◌,
}
use Prim.Native.String.{◌++◌ as append}
use quant_tool.Base.Lists.{any}
use quant_tool.Base.Result.{Result, ok, err}
use quant_tool.Toluna.{EventType, member_complete, member_terminate, Payload, Db, Invalid}
use quant_tool.Toluna.Ingest.{Identity, ingest_toluna_notification}

pub record Settings : Type 0 where
  pub ip_allowlist : Option (List ℕ)
  pub trusted_proxy_ips : Option (List ℕ)
  pub require_hmac : Bool
  pub hmac_key : String

-- REMOTE_ADDR, HTTP_X_FORWARDED_FOR and HTTP_X_REAL_IP, the type of the content, and of the body the
-- values that are signed, "" where one is missing, and the digest, where it is one.
pub record Request : Type 0 where
  pub remote_addr : Option ℕ
  pub forwarded_for : List (Option ℕ)
  pub real_ip : Option (Option ℕ)
  pub is_json : Bool
  pub survey_id : String
  pub wave_id : String
  pub member_code : String
  pub encrypted_value : Option ℕ
  pub payload : Payload

-- The answers; that of an accepted notification names its row and whether it was a duplicate. The flag
-- `applied` beside them is read from the row.
pub data Response : Type 0 where
  not_configured source_not_allowed not_json : Response
  verification_not_configured invalid_signature : Response
  bad_request : Invalid → Response
  accepted : ℕ → Bool → Response

abbrev pub header_hop : Option (Option ℕ) → List (Option ℕ)
header_hop none = []
header_hop (some hop) = hop ∷ []

-- `reversed(...)`
unfoldable pub reversed : List (Option ℕ) → List (Option ℕ)
reversed [] = []
reversed (x ∷ xs) = reversed xs ++ x ∷ []

module _ (in_network : ℕ → ℕ → Bool) where
  -- `_is_in_networks`
  abbrev pub is_in_networks : Option ℕ → List ℕ → Bool
  is_in_networks none networks = false
  is_in_networks (some address) networks = any (in_network address) networks

  -- The loop over the hops, from the nearest on
  unfoldable pub first_untrusted : List ℕ → List (Option ℕ) → Option ℕ
  first_untrusted trusted_proxies [] = none
  first_untrusted trusted_proxies (none ∷ hops) = none
  first_untrusted trusted_proxies (some candidate ∷ hops) =
      let rest = first_untrusted trusted_proxies hops in
      if is_in_networks (some candidate) trusted_proxies then rest else some candidate

  -- `_notification_source_ip`
  unfoldable pub notification_source_ip : Request → List ℕ → Option ℕ
  unfolding reversed first_untrusted
  notification_source_ip request trusted_proxies = elim request.remote_addr [
    | none ↦ none
    | some peer ↦
        if not (is_in_networks (some peer) trusted_proxies)
        then some peer
        else elim request.forwarded_for [
          | [] ↦ first_untrusted trusted_proxies (header_hop request.real_ip)
          | hop ∷ hops ↦ first_untrusted trusted_proxies (reversed (hop ∷ hops))
        ]
  ]

  module _ (hmac_sha256 : String → String → ℕ) where
    -- `_valid_member_status_hmac`
    unfoldable pub valid_member_status_hmac : Settings → Request → Option Bool
    valid_member_status_hmac settings q =
        if str_eq settings.hmac_key ""
        then none
        else if str_eq q.survey_id "" || str_eq q.wave_id "" || str_eq q.member_code ""
        then some false
        else elim q.encrypted_value [
          | none ↦ some false
          | some supplied ↦ some (
              supplied
              == hmac_sha256 settings.hmac_key
                  (append (append q.survey_id q.wave_id) q.member_code))
        ]

    abbrev pub is_signed_event : EventType → Bool
    is_signed_event member_complete = true
    is_signed_event member_terminate = true
    is_signed_event _ = false

    -- The checks of `post` that refuse a request
    unfoldable pub refusal : Settings → EventType → Request → Option Response
    unfolding notification_source_ip valid_member_status_hmac
    refusal settings event q = elim settings.ip_allowlist [
      | none ↦ some not_configured
      | some [] ↦ some not_configured
      | some (n ∷ networks) ↦ elim settings.trusted_proxy_ips [
        | none ↦ some not_configured
        | some trusted_proxies ↦
            if not (is_in_networks (notification_source_ip q trusted_proxies) (n ∷ networks))
            then some source_not_allowed
            else if not q.is_json
            then some not_json
            else if is_signed_event event && settings.require_hmac
            then elim (valid_member_status_hmac settings q) [
              | none ↦ some verification_not_configured
              | some valid ↦ if valid then none else some invalid_signature
            ]
            else none
      ]
    ]

    -- `TolunaNotificationAPIView.post`
    unfoldable pub post :
        (Identity → ℕ) → Settings → ℕ → ℕ → EventType → Request → Db → Response × Db
    unfolding refusal ingest_toluna_notification
    post sha256 settings now key event q db = elim (refusal settings event q) [
      | some refused ↦ (refused, db)
      | none ↦
          let (result, after) = ingest_toluna_notification sha256 now key event q.payload db in
          elim result [
            | err e ↦ (bad_request e, after)
            | ok (event_id, duplicate) ↦ (accepted event_id duplicate, after)
          ]
    ]

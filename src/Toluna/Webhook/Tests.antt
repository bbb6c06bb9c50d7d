-- ===== src/Toluna/Webhook/Tests.antt =====
-- A request behind a proxy, whose caller has written an address before its own
-- (surveys/webhook_views.py).
use Prim.Native.String.{len}
use quant_tool.Base.{
  ℕ, ◌+◌, ◌*◌, String, ◌≡◌, refl, ◌⊎◌, Bool, true, false, none, some, [], ◌∷◌, ◌==◌,
}
use quant_tool.Toluna.{member_terminate, Payload, Db}
use quant_tool.Toluna.Ingest.{Identity, completion, whole_payload}
use quant_tool.Toluna.Webhook.{Settings, Request, notification_source_ip, post}
use quant_tool.Toluna.Webhook.Guarded.{IsAuthentic, source_behind_proxies, post-IsAuthentic}

abbrev same_address : ℕ → ℕ → Bool
same_address address network = address == network

abbrev mac : String → String → ℕ
mac key text = len key * 31 + len text

abbrev hash : Identity → ℕ
hash (completion integration survey_id wave_id code) = 0
hash (whole_payload integration content) = content

abbrev settings : Settings
settings = record {
  ip_allowlist = some (5 ∷ 6 ∷ []);
  trusted_proxy_ips = some (9 ∷ []);
  require_hmac = true;
  hmac_key = "secret";
}

abbrev payload : Payload
payload = record {
  survey_id = some 100;
  wave_id = some 1;
  unique_code = "u1";
  reason_key = "quotafull";
  names_fraud = false;
  supplied_rid = none;
  quota_id = none;
  is_live = none;
  occurred_at = none;
  content = 3;
}

abbrev request : Request
request = record {
  remote_addr = some 9;
  forwarded_for = some 6 ∷ some 5 ∷ some 9 ∷ [];
  real_ip = none;
  is_json = true;
  survey_id = "100";
  wave_id = "1";
  member_code = "u1";
  encrypted_value = some 192;
  payload = payload;
}

abbrev empty : Db
empty = record {
  surveys = [];
  quotas = [];
  respondents = [];
  notifications = [];
  vendors = record {
    users = [];
    clients = [];
    units = [];
    rules = [];
    surveys = [];
    client_allocations = [];
    survey_allocations = [];
    attempts = [];
    reservations = [];
  };
}

source_behind_proxies_example : notification_source_ip same_address request (9 ∷ []) ≡ some 5
source_behind_proxies_example =
    source_behind_proxies same_address request (9 ∷ []) 9 5 (some 6 ∷ []) (some 9 ∷ []) refl refl
      refl refl refl

post-IsAuthentic_example :
    ((post same_address mac hash settings 1000 1 member_terminate request empty).1 ≡ empty)
    ⊎ IsAuthentic same_address mac settings member_terminate request
post-IsAuthentic_example =
    post-IsAuthentic same_address mac hash settings 1000 1 member_terminate request empty

-- ===== src/Listener/Webhook.antt =====
-- The webhook route: `verifySignature` and `handleDsyncWebhook` of workers/native/listener.ts.
pub mod Signed
use scim_bridge.Base.{
  ℕ, ◌-◌, String, Bool, true, false, Option, none, some, not, ◌&&◌, ◌||◌, ◌==◌, string_eq, leb,
  if◌then◌else◌,
}
use scim_bridge.Base.Text.{concat, to_lower}
use scim_bridge.Base.Effects.{Effect, pure, ◌>>=◌}
use scim_bridge.Base.Result.{Result, ok, err}
use scim_bridge.Json.{Value, Fields, record_of}
use scim_bridge.Listener.Config.{get_config}
use scim_bridge.Listener.{Outer, Outside, Listening, Bridge}
use scim_bridge.Listener.Signature.{SignatureHeader, match_signature}
use scim_bridge.Listener.Scopes.{or_else}
use scim_bridge.Listener.Process.{Processed, process_dsync_event, outside}
use mathlib.Core.List.{[], ◌∷◌}

-- `SIGNATURE_TOLERANCE_MS`
abbrev pub signature_tolerance_ms : ℕ
signature_tolerance_ms = 300000

-- `SignatureResult`
pub data SignatureResult : Type 0 where
  valid invalid stale : SignatureResult

-- `Math.abs(a - b)`
abbrev pub distance : ℕ → ℕ → ℕ
distance a b = if leb a b then b - a else a - b

-- The answer to a delivery: the status and, for a refusal, the error in its body.
pub record WebhookResponse : Type 0 where
  pub status : ℕ
  pub received : Bool
  pub error : Option String

module _ {W : Type 0} (o : Outside W) where
  abbrev pub verdict : String → String → ℕ → Option SignatureHeader → SignatureResult
  verdict secret raw_body now none = invalid
  verdict secret raw_body now (some h) =
      if not
        (o.hmac_hex secret (concat (h.time_text ∷ "." ∷ raw_body ∷ [])) == to_lower h.signature)
      then invalid
      else if leb (distance now h.time) signature_tolerance_ms
      then valid
      else stale

  abbrev pub match_of : Option String → Option SignatureHeader
  match_of none = none
  match_of (some header) = match_signature header

  -- `verifySignature`; `timingSafeEqual` is the equality of texts
  unfoldable pub verify_signature : String → Option String → String → ℕ → SignatureResult
  unfolding match_signature
  verify_signature secret header raw_body now = verdict secret raw_body now (match_of header)

  abbrev pub refused_response : String → WebhookResponse
  refused_response message = record { status = 401; received = false; error = some message }

  abbrev pub response_of : Processed → WebhookResponse
  response_of p =
      if p.handler_error
      then record {
        status = 503;
        received = false;
        error = some "Directory Sync event could not be applied; retry required";
      }
      else record { status = 200; received = true; error = none }

  -- Behind the signature.
  unfoldable pub accept_webhook : String → Listening W WebhookResponse
  unfolding process_dsync_event
  accept_webhook raw_body = do
    processed ← process_dsync_event o (record_of (o.upstream.parse raw_body)) (some raw_body) true
    pure (response_of processed)

  abbrev pub after_signature : String → SignatureResult → Listening W WebhookResponse
  after_signature raw_body valid = accept_webhook raw_body
  after_signature raw_body invalid =
      pure (refused_response "Webhook signature verification failed.")
  after_signature raw_body stale = pure (
      refused_response
        "Webhook timestamp is outside the 5 minute tolerance window — check this host's clock.")

  -- `handleDsyncWebhook`
  unfoldable pub handle_dsync_webhook : Option String → String → Listening W WebhookResponse
  unfolding accept_webhook verify_signature get_config
  handle_dsync_webhook header raw_body s =
      let secret = or_else "" (get_config "native.webhook_secret" s.rows.config) in
      if secret == ""
      then accept_webhook raw_body s
      else (outside o (λ w. let r = o.date_now w in (ok r.0, r.1)) >>= λ now.
            after_signature raw_body (verify_signature secret header raw_body now))
          s

-- ===== src/Listener/Webhook/Signed.antt =====
-- What the signature of a delivery guards.
use scim_bridge.Base.{
  ℕ, ◌+◌, ◌≤◌, ◌≡◌, refl, String, Bool, true, false, Option, some, [], ◌∷◌, leb, ◌==◌, string_eq,
  if◌then◌else◌, arith, Bool-cases, Option-cases, inl, inr, eq_of_beq,
}
use scim_bridge.Base.Text.{concat, to_lower}
use scim_bridge.Base.Result.{ok}
use scim_bridge.Listener.Config.{get_config}
use scim_bridge.Listener.{Outside, Bridge}
use scim_bridge.Listener.Signature.{SignatureHeader}
use scim_bridge.Listener.Webhook.{
  valid, invalid, stale, signature_tolerance_ms, distance, match_of, verdict, verify_signature,
  refused_response, handle_dsync_webhook,
}

within-le :
    (now time : ℕ)
    → leb (distance now time) signature_tolerance_ms ≡ true
    → (now ≤ time + 300000) × (time ≤ now + 300000)
within-le now time h = ground arith

true_of_valid : (b : Bool) → (if b then valid else stale) ≡ valid → b ≡ true
true_of_valid true h = refl
true_of_valid false h = cc

module _ {W : Type 0} (o : Outside W) where
  -- The HMAC of the signed time and the body, as the header must hold it.
  abbrev pub signature_for : String → String → SignatureHeader → String
  signature_for secret raw_body h = o.hmac_hex secret (concat (h.time_text ∷ "." ∷ raw_body ∷ []))

  verdict-valid :
      (secret raw_body : String) (now : ℕ) (h : SignatureHeader)
      → verdict o secret raw_body now (some h) ≡ valid
      → (signature_for secret raw_body h ≡ to_lower h.signature)
        × (now ≤ h.time + 300000)
        × (h.time ≤ now + 300000)
  verdict-valid secret raw_body now h e =
      elim (Bool-cases (signature_for secret raw_body h == to_lower h.signature)) [
        | inr forged ↦ let clash : invalid ≡ valid = rw forged at e in cc
        | inl signed ↦
            let fresh : (if leb (distance now h.time) signature_tolerance_ms then valid else stale)
                ≡ valid =
              rw signed at e in
            let (late, early) =
              within-le now h.time
                (true_of_valid (leb (distance now h.time) signature_tolerance_ms) fresh) in
            (eq_of_beq (signature_for secret raw_body h) (to_lower h.signature) signed, late, early)
      ]

  -- A signature is accepted only if it is the HMAC of the signed time and the body under the secret,
  -- and the signed time is within five minutes of the clock, in either direction.
  pub verify_signature-bounds :
      (secret : String) (header : Option String) (raw_body : String) (now : ℕ)
      → verify_signature o secret header raw_body now ≡ valid
      → (h : SignatureHeader) × (match_of o header ≡ some h)
        × (signature_for secret raw_body h ≡ to_lower h.signature)
        × (now ≤ h.time + 300000)
        × (h.time ≤ now + 300000)
  unfolding verify_signature
  verify_signature-bounds secret header raw_body now e = elim (Option-cases (match_of o header)) [
    | inl unmatched ↦ let clash : invalid ≡ valid = rw unmatched at e in cc
    | inr (h, matched) ↦
        let (signed, late, early) = verdict-valid secret raw_body now h (rw matched at e) in
        (h, matched, signed, late, early)
  ]

  verify-invalid :
      (secret : String) (header : Option String) (raw_body : String) (now : ℕ)
      → ((h : SignatureHeader)
          → match_of o header ≡ some h
          → (signature_for secret raw_body h == to_lower h.signature) ≡ false)
      → verify_signature o secret header raw_body now ≡ invalid
  unfolding verify_signature
  verify-invalid secret header raw_body now forged = elim (Option-cases (match_of o header)) [
    | inl unmatched ↦ rw unmatched refl
    | inr (h, matched) ↦ rw (matched, forged h matched) refl
  ]

  -- Where a secret is configured, a delivery that does not carry the HMAC of its time and body is
  -- answered with status 401, and every table is as before.
  pub forged-refused :
      (secret : String) (header : Option String) (raw_body : String) (s : Bridge W)
      → get_config "native.webhook_secret" s.rows.config ≡ some secret
      → (secret == "") ≡ false
      → ((h : SignatureHeader)
          → match_of o header ≡ some h
          → (signature_for secret raw_body h == to_lower h.signature) ≡ false)
      → ((handle_dsync_webhook o header raw_body s).0
          ≡ ok (refused_response o "Webhook signature verification failed."))
        × ((handle_dsync_webhook o header raw_body s).1.rows ≡ s.rows)
        × ((handle_dsync_webhook o header raw_body s).1.ids ≡ s.ids)
        × ((handle_dsync_webhook o header raw_body s).1.native ≡ s.native)
        × ((handle_dsync_webhook o header raw_body s).1.events ≡ s.events)
  unfolding handle_dsync_webhook
  forged-refused secret header raw_body s configured nonempty forged =
      let now = (o.date_now s.world).0 in
      let denied = verify-invalid secret header raw_body now forged in
      rw (configured, nonempty, denied) (refl, refl, refl, refl, refl)

-- ===== src/Api/Session/Validity.antt =====
-- When `isTokenValid` of frontend/lib/api.ts lets a session through.
use ventopanel.Base.{
  ℕ, ◌*◌, ◌<◌, ◌≡◌, refl, ◌↔◌, true, Option, none, some, Text, Option-cases, inl, inr, arith,
}
use ventopanel.Api.Session.{
  Browser, TokenPayload, get_token, present, in_force, payload_in_force, is_token_valid,
  get_token_payload,
}

abbrev InForce : ℕ → Option TokenPayload → Type 0
InForce now o = (p : TokenPayload) × (e : ℕ) × (o ≡ some p) × (p.exp ≡ some e) × (now < e * 1000)

in_force-payload :
    (now : ℕ) (p : TokenPayload) (o : Option ℕ)
    → p.exp ≡ o
    → in_force now o ≡ true
    → InForce now (some p)
in_force-payload now p none h v = cc
in_force-payload now p (some e) h v = (p, e, refl, h, ground arith)

payload_in_force_iff :
    (now : ℕ) (o : Option TokenPayload) → (payload_in_force now o ≡ true) ↔ InForce now o
payload_in_force_iff now none = ((λ v. cc), (λ (p, e, k, _, _). cc))
payload_in_force_iff now (some p) =
    (in_force-payload now p p.exp refl, (λ (q, e, k, x, l). ground arith))

module _ (decode : Text → Option TokenPayload) where
  is_token_valid-get_token_payload :
      (now : ℕ) (b : Browser)
      → is_token_valid decode now b ≡ payload_in_force now (get_token_payload decode b)
  unfolding is_token_valid get_token_payload
  is_token_valid-get_token_payload now b = elim (Option-cases (present (get_token b))) [
    | inl e ↦ rw (e, is_token_valid, get_token_payload)
    | inr (t, e) ↦ rw (e, is_token_valid, get_token_payload)
  ]

  -- A session is valid exactly when its token has a readable payload with an expiry that lies ahead.
  is_token_valid_iff :
      (now : ℕ) (b : Browser)
      → (is_token_valid decode now b ≡ true) ↔ (
          (p : TokenPayload) × (e : ℕ) × (get_token_payload decode b ≡ some p)
          × (p.exp ≡ some e)
          × (now < e * 1000))
  is_token_valid_iff now b =
      rw (is_token_valid-get_token_payload now b)
        (payload_in_force_iff now (get_token_payload decode b))

-- ===== src/Webhook/Sign.antt =====
-- Signatures of deliveries: nem_pay/api/internal/webhook/sign.go. The HMAC in hexadecimal and the
-- constant-time comparison are third-party code.
use monorepo_payment.Base.{◌≡◌, refl, Bool, true, [], ◌∷◌, ◌++◌, Bytes, ◌↔◌}

-- "sha256="
abbrev pub sign_prefix : Bytes
sign_prefix = b's' ∷ b'h' ∷ b'a' ∷ b'2' ∷ b'5' ∷ b'6' ∷ b'=' ∷ []

module _ (mac : Bytes → Bytes → Bytes) where
  unfoldable pub sign : Bytes → Bytes → Bytes
  sign secret body = sign_prefix ++ mac secret body

  unfoldable pub verify : (Bytes → Bytes → Bool) → Bytes → Bytes → Bytes → Bool
  unfolding sign
  verify equal secret body sig = equal sig (sign secret body)

-- With a comparison that is true of equal texts only, a signature is accepted exactly if it is the one
-- that the gateway makes of the secret and the body; that one is accepted always.
pub verify-sign :
    (mac : Bytes → Bytes → Bytes) (equal : Bytes → Bytes → Bool)
    → ((a b : Bytes) → (equal a b ≡ true) ↔ (a ≡ b))
    → (secret body sig : Bytes)
    → ((verify mac equal secret body sig ≡ true) ↔ (sig ≡ sign mac secret body))
      × (verify mac equal secret body (sign mac secret body) ≡ true)
unfolding verify
verify-sign mac equal exact secret body sig =
    (exact sig (sign mac secret body), (exact (sign mac secret body) (sign mac secret body)).1 refl)

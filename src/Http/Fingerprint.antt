-- ===== src/Http/Fingerprint.antt =====
-- `Fingerprint` of nem_pay/api/internal/service/idempotency.go. SHA-256 in hexadecimal is
-- third-party code.
use monorepo_payment.Base.{
  bytes_eq_refl, ◌∙◌, sym, ap, not_both, inr, bytes_eq_sound, inl, bytes_eq, Bool-cases, ◌⊎◌, ℕ,
  ◌≡◌, ◌≢◌, refl, [], ◌∷◌, ◌++◌, Bytes, All, arith,
}

-- What is hashed: the method, a NUL, the request URI, a NUL, and the body.
unfoldable pub framed : Bytes → Bytes → Bytes → Bytes
framed method uri body = method ++ (0 ∷ (uri ++ (0 ∷ body)))

unfoldable pub fingerprint : (Bytes → Bytes) → Bytes → Bytes → Bytes → Bytes
unfolding framed
fingerprint digest method uri body = digest (framed method uri body)

abbrev pub NulFree : Bytes → Type 0
NulFree = All (λ b. b ≢ 0)

∷_head : {x y : ℕ} {xs ys : Bytes} → x ∷ xs ≡ y ∷ ys → x ≡ y
∷_head e = ground arith

-- A text without NUL before the first NUL can be read back.
nul_splits :
    (a b xs ys : Bytes) → NulFree a → NulFree b → a ++ 0 ∷ xs ≡ b ++ 0 ∷ ys → (a ≡ b) × (xs ≡ ys)
nul_splits [] [] xs ys ha hb e = (refl, ground arith)
nul_splits [] (y ∷ b) xs ys ha hb e = absurd (ground (arith, hb.0))
nul_splits (x ∷ a) [] xs ys ha hb e = absurd (ground (arith, ha.0))
nul_splits (x ∷ a) (y ∷ b) xs ys ha hb e =
    let (rest, same) = nul_splits a b xs ys ha.1 hb.1 (ground arith) in (ground (arith, rest), same)

-- Two different texts with the same digest.
pub record Collision (digest : Bytes → Bytes) (a b : Bytes) : Type 0 where
  pub differ : a ≢ b
  pub same : digest a ≡ digest b

-- Two requests whose methods and URIs hold no NUL have the same fingerprint only if their methods, URIs
-- and bodies are the same, or the two texts that are hashed for them are a collision of the digest.
pub fingerprint-same :
    (digest : Bytes → Bytes) (method uri body method' uri' body' : Bytes)
    → NulFree method
    → NulFree uri
    → NulFree method'
    → NulFree uri'
    → fingerprint digest method uri body ≡ fingerprint digest method' uri' body'
    → ((method ≡ method') × (uri ≡ uri') × (body ≡ body'))
      ⊎ Collision digest (framed method uri body) (framed method' uri' body')
unfolding fingerprint framed
fingerprint-same digest method uri body method' uri' body' hm hu hm' hu' e =
    elim (Bool-cases (bytes_eq (framed method uri body) (framed method' uri' body'))) [
      | inl same ↦
          let (same_method, rest) =
            nul_splits method method' (uri ++ (0 ∷ body)) (uri' ++ (0 ∷ body')) hm hm'
              (bytes_eq_sound (framed method uri body) (framed method' uri' body') same) in
          let (same_uri, same_body) = nul_splits uri uri' body body' hu hu' rest in
          inl (same_method, same_uri, same_body)
      | inr other ↦ inr (record {
        differ = λ same. not_both other (
            ap (bytes_eq (framed method uri body)) (sym same)
            ∙ bytes_eq_refl (framed method uri body));
        same = e;
      })
    ]

-- ===== src/Payments/References.antt =====
-- The references that the local provider gives out.
use ludora.Common.{
  ℕ, zero, suc, ◌<◌, ◌≤◌, true, ◌||◌, ◌≡◌, refl, ap, sym, ◌∙◌, inl, inr, [], ◌∷◌, ◌++◌, map, none,
  arith, length, take, filter, null, all, Text, codes, is_blank, is_digit, length-print_decimal,
  print_decimal, parse_decimal, parse-print_decimal, is_decimal-print, Bool-cases,
}
use ludora.Payments.Providers.{
  CreatePaymentRequest, ProviderPayment, ProviderStatus, returned, rejected, LocalConfirmation,
  simulated, lower_ascii, is_safe, safe_key, local_create, local_confirm, reference_prefix,
}
use ludora.Payments.Prepare.{Prepared}
use ludora.Payments.Attempt.{payment_request}

-- If the local provider accepts a request, then it confirms the reference that it gave out, with
-- the outcome that it simulates.
pub local_confirm-local_create :
    (request : CreatePaymentRequest) (confirmation : LocalConfirmation) (result : ProviderPayment)
    → local_create request ≡ returned result
    → local_confirm confirmation result.external_id
      ≡ returned (record {
        external_id = result.external_id;
        status = simulated confirmation;
        checkout_url = none;
      })
unfolding local_create local_confirm
local_confirm-local_create request confirmation result e =
    elim (Bool-cases (is_blank request.order_number || null request.idempotency_key)) [
      | inl blank ↦ let refused : rejected ≡ returned result = rw blank at e in cc
      | inr given ↦ elim (Bool-cases (null (safe_key request.idempotency_key))) [
        | inl unsafe ↦ let refused : rejected ≡ returned result = rw (given, unsafe) at e in cc
        | inr safe ↦
            let made : returned (record {
              external_id = take 255 (reference_prefix ++ safe_key request.idempotency_key);
              status = ProviderStatus.pending;
              checkout_url = none;
            })
                ≡ returned result =
              rw (given, safe) at e in
            let id : take 255 (reference_prefix ++ safe_key request.idempotency_key)
                ≡ result.external_id =
              cc in
            rw (sym id) refl
      ]
    ]

safe_digits : (t : Text) → all is_digit t ≡ true → filter is_safe (map lower_ascii t) ≡ t
safe_digits [] h = refl
safe_digits (c ∷ t) h = ground (arith, safe_digits t)

take-whole : (n : ℕ) (t : Text) → length t ≤ n → take n t ≡ t
take-whole zero [] h = refl
take-whole zero (c ∷ t) h = absurd (omega arith)
take-whole (suc n) [] h = refl
take-whole (suc n) (c ∷ t) h = ap (λ u. c ∷ u) (take-whole n t (omega arith))

safe_key-payment :
    (n : ℕ) → safe_key (codes "payment-" ++ print_decimal n) ≡ codes "payment-" ++ print_decimal n
unfolding safe_key
safe_key-payment n =
    let digits : all is_digit (print_decimal n) ≡ true = ground (arith, is_decimal-print n) in
    ap (λ (t : Text). codes "payment-" ++ t) (safe_digits (print_decimal n) digits)

-- The reference of a payment whose id is a positive 64-bit number.
reference_of_payment :
    (p : Prepared) (r : ProviderPayment)
    → p.payment.id < 9223372036854775808
    → local_create (payment_request p) ≡ returned r
    → r.external_id ≡ codes "local-pay-payment-" ++ print_decimal p.payment.id
unfolding local_create
reference_of_payment p r bound e =
    let digits : length (print_decimal p.payment.id) ≤ 19 =
      length-print_decimal 18 p.payment.id (omega arith) in
    elim (Bool-cases (is_blank p.order.order_number)) [
      | inl blank ↦ let refused : rejected ≡ returned r = rw blank at e in cc
      | inr given ↦
          let made : returned (record {
            external_id = take 255 (codes "local-pay-payment-" ++ print_decimal p.payment.id);
            status = ProviderStatus.pending;
            checkout_url = none;
          })
              ≡ returned r =
            rw (given, safe_key-payment p.payment.id) at e in
          let id : take 255 (codes "local-pay-payment-" ++ print_decimal p.payment.id)
              ≡ r.external_id =
            cc in
          sym id
          ∙ take-whole 255 (codes "local-pay-payment-" ++ print_decimal p.payment.id)
              (omega (arith, digits))
    ]

-- If the local provider accepts the requests of two payments whose ids are below 2 ^ 63 and gives
-- both the same reference, then the two are the same payment.
pub local_references_differ :
    (p q : Prepared) (r s : ProviderPayment)
    → p.payment.id < 9223372036854775808
    → q.payment.id < 9223372036854775808
    → local_create (payment_request p) ≡ returned r
    → local_create (payment_request q) ≡ returned s
    → r.external_id ≡ s.external_id
    → p.payment.id ≡ q.payment.id
local_references_differ p q r s small small' made made' same =
    let texts : codes "local-pay-payment-" ++ print_decimal p.payment.id
        ≡ codes "local-pay-payment-" ++ print_decimal q.payment.id =
      sym (reference_of_payment p r small made) ∙ same ∙ reference_of_payment q s small' made' in
    let numerals : print_decimal p.payment.id ≡ print_decimal q.payment.id = cc in
    sym (parse-print_decimal p.payment.id)
    ∙ ap parse_decimal numerals
    ∙ parse-print_decimal q.payment.id

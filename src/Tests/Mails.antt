-- ===== src/Tests/Mails.antt =====
-- The theorem on sent mails, applied to the shop with the paid order.
use ludora.Common.{◌≡◌, refl, codes}
use ludora.Emails.{
  EmailMessage, sent, is_eligible, has_complete_fulfilment, build_order_confirmation_email,
  send_order_confirmation_email,
}
use ludora.Emails.Sent.{Confirms, send_order_confirmation_email-Confirms}
use ludora.Tests.Shop.{sold_order, sold_shop}

abbrev message : EmailMessage
message = build_order_confirmation_email (codes "shop@ludora") sold_order sold_shop

mailed : send_order_confirmation_email (codes "shop@ludora") 3 sold_shop ≡ sent message
unfolding send_order_confirmation_email is_eligible has_complete_fulfilment
mailed = refl

send_order_confirmation_email-Confirms_example : Confirms (codes "shop@ludora") 3 sold_shop message
send_order_confirmation_email-Confirms_example =
    send_order_confirmation_email-Confirms (codes "shop@ludora") 3 sold_shop message mailed

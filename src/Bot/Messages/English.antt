-- ===== src/Bot/Messages/English.antt =====
-- bot/app/localization/messages.py, `MESSAGES["en"]`.
use ludora.Common.{List, [], ◌∷◌, Text}
use ludora.Bot.Messages.Table.{message}

unfoldable pub english : List (Text × Text)
english =
    message "welcome" "Welcome to Ludora.\n\nBrowse available digital products and choose a game."
    ∷ message "button.catalogue" "🛍 Open catalogue"
    ∷ message "button.language" "🌐 Change language"
    ∷ message "button.profile" "👤 Profile"
    ∷ message "button.cart" "🛒 Cart"
    ∷ message "button.orders" "📦 My orders"
    ∷ message "button.order_details" "Order #{order_id} details"
    ∷ message "button.add_cart" "Add to cart"
    ∷ message "button.view_cart" "View cart"
    ∷ message "button.continue_shopping" "Continue shopping"
    ∷ message "button.clear_cart" "Clear cart"
    ∷ message "button.checkout" "Create order"
    ∷ message "button.pay" "Pay now"
    ∷ message "button.check_payment" "Check payment status"
    ∷ message "button.confirm" "Confirm"
    ∷ message "button.cancel" "Cancel"
    ∷ message "button.english" "English"
    ∷ message "button.russian" "Русский"
    ∷ message "button.details" "View details"
    ∷ message "button.previous" "‹ Previous"
    ∷ message "button.next" "Next ›"
    ∷ message "button.back" "‹ Back to catalogue"
    ∷ message "language.choose" "Choose your language:"
    ∷ message "language.changed" "Language changed to English."
    ∷ message "catalogue.title" "<b>Product catalogue</b>"
    ∷ message "catalogue.page" "Page {page}"
    ∷ message "field.platform" "Platform"
    ∷ message "field.type" "Type"
    ∷ message "field.price" "Price"
    ∷ message "field.description" "Description"
    ∷ message "field.categories" "Categories"
    ∷ message "description.missing" "No description available."
    ∷ message "categories.missing" "No categories specified."
    ∷ message "description.truncated" "… [truncated]"
    ∷ message "catalogue.empty" "The catalogue is currently empty."
    ∷ message "error.unavailable" "Ludora is temporarily unavailable. Please try again later."
    ∷ message "error.timeout" "The Ludora request timed out. Please try again."
    ∷ message "error.invalid_response"
        "Ludora returned an invalid response. Please try again later."
    ∷ message "error.not_found" "This product is no longer available."
    ∷ message "error.invalid_callback" "This button is invalid or outdated."
    ∷ message "error.internal" "Something went wrong. Please try again later."
    ∷ message "error.auth_failed" "Could not authenticate with Ludora. Please try again later."
    ∷ message "error.auth_expired" "Your session expired. Please try again."
    ∷ message "error.validation" "That cart action is not available."
    ∷ message "error.conflict" "The cart changed. Please review it and try again."
    ∷ message "error.resource_not_found" "This cart item is no longer available."
    ∷ message "error.permission" "You cannot access that cart."
    ∷ message "error.missing_user" "Telegram user information is unavailable. Please try again."
    ∷ message "profile.title" "<b>Your profile</b>"
    ∷ message "profile.name" "<b>Name:</b> {value}"
    ∷ message "profile.email" "<b>Email:</b> {value}"
    ∷ message "profile.username" "<b>Telegram:</b> {value}"
    ∷ message "profile.language" "<b>Language:</b> {value}"
    ∷ message "profile.registered" "<b>Registered:</b> {value}"
    ∷ message "profile.name_missing" "Not provided"
    ∷ message "command.start" "Open the Ludora menu"
    ∷ message "command.catalogue" "Browse the product catalogue"
    ∷ message "command.profile" "Show your Ludora profile"
    ∷ message "command.cart" "Show your shopping cart"
    ∷ message "command.orders" "Show your order history"
    ∷ message "orders.title" "<b>My orders</b>"
    ∷ message "orders.empty" "You do not have any orders yet."
    ∷ message "orders.id" "<b>Order:</b> #{value}"
    ∷ message "orders.status" "<b>Status:</b> {value}"
    ∷ message "orders.created" "<b>Created:</b> {value}"
    ∷ message "orders.items" "<b>Items:</b> {value}"
    ∷ message "orders.total" "<b>Total:</b> {value}"
    ∷ message "orders.not_found" "This order no longer exists."
    ∷ message "order_detail.title" "<b>Order #{order_id}</b>"
    ∷ message "order_detail.products" "<b>Products</b>"
    ∷ message "order_detail.item" "{title}\n{quantity} × {unit_price} — {line_total}"
    ∷ message "order_detail.payments" "<b>Payment information</b>"
    ∷ message "order_detail.payment"
        "Status: {status}\nProvider: {provider}\nTransaction: {transaction_id}\nAmount: {amount}"
    ∷ message "order_detail.no_payments" "No payment information is available."
    ∷ message "order_detail.license_keys" "<b>License keys</b>"
    ∷ message "cart.title" "<b>Your cart</b>"
    ∷ message "cart.empty" "Your cart is empty."
    ∷ message "cart.item" "<b>{title}</b>\n{quantity} × {unit_price} = {line_total}"
    ∷ message "cart.quantity" "<b>Total items:</b> {quantity}"
    ∷ message "cart.total" "<b>Total:</b> {total}"
    ∷ message "cart.added" "Added to your cart."
    ∷ message "cart.clear_confirm" "Clear every item from your cart?"
    ∷ message "cart.checkout_confirm" "Create an order from the current cart?"
    ∷ message "cart.cleared" "Your cart has been cleared."
    ∷ message "checkout.success" "<b>Order {order_number} created</b>"
    ∷ message "checkout.item" "{title} × {quantity} — {line_total}"
    ∷ message "checkout.total" "<b>Order total:</b> {total}"
    ∷ message "payment.created"
        "<b>Payment created</b>\nAmount: {amount}\nStatus: {status}\n\nUse the button below to complete payment."
    ∷ message "payment.pending"
        "<b>Payment status:</b> {status}\nPayment has not been completed yet."
    ∷ message "payment.completed" "<b>Payment completed successfully!</b>"
    ∷ message "payment.missing" "Payment information is not available yet."
    ∷ message "type.GAME" "Game"
    ∷ message "type.DLC" "DLC"
    ∷ message "type.SUBSCRIPTION" "Subscription"
    ∷ message "type.GIFT_CARD" "Gift card"
    ∷ message "type.SOFTWARE" "Software"
    ∷ []

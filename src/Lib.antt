-- ===== src/Lib.antt =====
-- Ludora sells license keys of games. A customer places a direct order or checks out a cart, starts
-- a payment with a provider, and gets the keys once the payment is confirmed, by the local provider
-- at once or by a Stripe webhook. This library models the services that do so and proves what they
-- keep.
--
-- The parts, and the files that model them (paths from the repository's root):
--   backend/apps/{games,orders,carts,payments}/models.py: Store.Rows has the rows, Store.Tables the
--     queries and writes with the constraints that the database checks. The database is one record
--     `Db` of tables and sequences. Store.Errors has the exceptions, Store.Transaction the monad of
--     `transaction.atomic`: an exception takes back all writes.
--   backend/apps/orders/services.py: Placement (create_direct_order), Orders (reserve_order_licenses,
--     release_order_license_reservation, authorize_order_reservation, terminate_payment,
--     fail_payment), Completion (_fulfil_order, complete_payment), Payments.PreparePay and
--     Payments.Pay (pay_order and its transactions).
--   backend/apps/orders/payment_services.py: Payments.Prepare and Payments.Attempt (create_payment).
--   backend/apps/carts/services.py: Carts, every service.
--   backend/apps/payments/providers.py: Payments.Providers.
--   backend/apps/payments/webhooks.py: Payments.Webhooks (process_stripe_webhook) and Payments.Parse
--     (parse_stripe_webhook).
--   backend/apps/orders/emails.py and tasks.py: Emails.
--   backend/apps/games/forms.py and the import view of admin.py: Imports.
--   backend/apps/orders/serializers.py and selectors.py: OrdersApi, what a user is shown of the user's orders.
--   backend/apps/carts/serializers.py and ProductListSerializer of backend/apps/games/serializers.py:
--     CartsApi, what a user is shown of the cart.
--   backend/apps/authentication/serializers.py and backend/apps/users/models.py: Accounts, the login of a Telegram
--     user.
--   bot/app/api/schemas.py: Bot.Schemas, the readers of the responses, over the values of Json.
--   bot/app/api/client.py and exceptions.py: Bot.Outcome, Bot.Session (what is sent and stored),
--     Bot.Client (_authenticated_json, _refresh) and Bot.Client.Endpoints (one call for each endpoint).
--   bot/app/auth/models.py, storage.py and service.py: Bot.Identity, Bot.Storage and Bot.Service.
--   bot/app/handlers/cart.py and catalogue.py: Bot.Handlers, what a press on a button does and shows.
--   bot/app/keyboards: Bot.Keyboards, the buttons and their callbacks.
--   bot/app/localization and error_key of bot/app/handlers/common.py: Bot.Messages.
--
-- How they interact. Each service is a function `Tx` from a database to a result and a database.
-- `select_for_update` makes a transaction one step; System has the calls as data, `run` for what a
-- call commits, and `Reach` for the histories of calls of all processes in any order. A call that
-- talks to a provider is several transactions with gaps (Payments.Process); in a history each of its
-- transactions is a call of its own, with any rows that an earlier one handed on.
--
-- The bot is a client of the API. A run of it (Bot.Session) sends requests and keeps tokens; the
-- backend and the network are one function from the requests sent so far to what comes of the newest,
-- so that a theorem for all such functions holds for every backend, also one that remembers or fails.
-- Bot.Session.Runs has the rules for how a run ends, Bot.Session.Within those for how far it reaches.
-- OrdersApi.Details, OrdersApi.Unreadable and CartsApi.Decoded join the two sides: the bot reads what the API writes.
--
-- Theorems stand in child modules named for what they prove: Store.Hoare has the rules for
-- transactions, Frame the tables that a service leaves alone, Inventory the stock of license keys,
-- System the invariants of histories. Tests applies the theorems to a small shop.
--
-- Choices of the model. Money is a number of cents on the native numbers, an instant is a number, a
-- text is a list of code points. Each table is a list in the order of its ids, so `order_by` is a
-- stable sort by the first column. Parameters, because their code is not here or is not determined:
-- the Stripe client, the check of a webhook's signature, the time, the drawn order number, and the
-- keys that other transactions hold when `skip_locked` looks; for the bot Python's readers of decimals
-- and instants, for the login the normal form of an address and what other requests commit
-- between its steps. The ids of imported keys are drawn by a sequence, so a history takes any id above
-- all that the tables hold. The digits of a numeral are printed on
-- fuel n + 1, which is enough, as each step divides by ten; the round trip of the numerals is proved
-- in Common.Texts.
--
-- Not modelled: HTTP views and the serializers that only the framework runs, admin pages except the
-- import, registration and token endpoints, the demo data, settings, logging, the task queue's
-- retries, and of the bot the message layouts, the handlers of profile and order history, and the
-- routing of updates; of the database the unique index on the order number, so that a history may hold
-- more calls than the database lets through. The bot's calls are
-- modelled one at a time: two calls for the same user that run at once are not.
pub mod Common
pub mod Store
pub mod Json
pub mod Bot
pub mod OrdersApi
pub mod CartsApi
pub mod Accounts
pub mod Placement
pub mod Carts
pub mod Orders
pub mod Completion
pub mod Frame
pub mod Payments
pub mod Inventory
pub mod Emails
pub mod Imports
pub mod System
pub mod Tests

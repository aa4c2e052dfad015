-- ===== src/Lib.antt =====
-- BaltOIL: the back-end services of a fuel dealer, each a FastAPI application over its own
-- PostgreSQL database, with Redis for counters and events. The development models the rules by
-- which the services change their state, and shows what these rules guarantee.
--
-- The parts, with the files that model them:
--   Tanks     delivery_service/app/services/tank_service.py: the tanks with their counters and
--             journal. Defs has the rows, Ops one function for each operation.
--             Removal is the part of app/services/redis_subscriber.py that undoes an order.
--   Trips     delivery_service/app/services/trip_service.py (Ops) and inventory_service.py
--             (Inventory): the trips of the drivers, and the stock with its transactions. A trip
--             posts what it takes through the inventory; an expense from a tank goes through
--             record_expense_from_tank of Tanks.Ops. Removal is handle_order_deleted of
--             app/services/redis_subscriber.py.
--   Sessions  auth_service/app/services/auth_service.py (refresh_tokens, logout, logout_all),
--             app/core/token_revocation.py and app/core/security.py: the refresh tokens, and the
--             marks by which all services refuse an access token.
--   Limits    auth_service/app/services/otp_service.py (Otp) and login_throttle.py (Throttle).
--   Calls     call_service/app/services/call_service.py and app/routers/webhook.py: calls between
--             users, and the events of LiveKit that move them.
--   Payments  order_service/app/services/payment_service.py: invoices, payments, the payment status
--             of an order and the permission to ship.
--   Prices    order_service/app/services/money.py (Money), tariff_formula.py (Formula),
--             pricing_service.py and payment_type_rules.py (Tariffs), and the default tariffs of
--             tariff_service.py (Defaults): what an order costs.
--   Orders    order_service/app/services/order_service.py with core/status_machine.py,
--             ttn_number.py, order_number.py and order_audit.py: Access, Create, Customer, Edit,
--             Lifecycle and Requests have the operations, over the books of Payments and the
--             amounts of Prices.
--   Chat      chat_service/app/services/conversation_service.py (Access, Ensure, Groups, Receipts,
--             Removal), message_service.py (Messages) and redis_subscriber.py (Removal): the
--             conversations, who is in them, and their messages.
--   Organizations  auth_service/app/services/organization_service.py (Create, Edit, Members) and
--             app/core/phone.py (Phone): the organizations of the clients and who acts for them.
--   Prelude, Table, Redis, Text, Service: numbers, lists and integers; a database table; a Redis
--             key with its expiry; texts; roles, HTTP errors and the results of the handlers.
--
-- How the code becomes definitions. A handler is a function from the state to `ok` of the new state
-- and its answer, or to `err` of the exception; get_db of each service rolls back on an exception,
-- so that `err` carries no state. Where the code commits before it raises (the replay of a stolen
-- refresh token), the function returns the error and the new state. What another program answers is
-- an argument: the clock, random draws and new identifiers, the digest of a token, the labels and
-- codes of the fuel catalog, the directory of companies, what Python and PostgreSQL take for a digit,
-- names from auth_service, the participants from chat_service, whether LiveKit, Redis or
-- order_service agrees. Orders gathers these answers in one record, Replies; a
-- refusal of a transition and a validation error are both the status 422 there. A property that
-- needs a new identifier says so.
--
-- Units. Volumes are whole hundredths of a litre and amounts whole kopecks, as the columns keep
-- them; the code passes some of them through floats, whose rounding is not modelled. Prices are
-- ten-thousandths of a rouble and coefficients thousandths. Clocks count microseconds. Identifiers,
-- raw tokens, digests, room names and fuel codes of the stock are numbers. No function here runs on
-- fuel or can fail to terminate.
--
-- Not modelled. Requests run one after another, except that the start of a call reads its check
-- from any earlier or later table; joins, hang-ups and the events of a call run as a whole, though
-- the code takes no lock for them: row locks and the isolation of PostgreSQL are not described.
-- Reports, spreadsheets, HTML and the texts of messages are left out, and so are the order and the
-- pages of a listing, the documents, invoices and contracts that follow an order, the creation
-- and the edit of a tariff, the transport orders, GPS, the logins, the files and
-- sockets of the chat and the notifications.
pub mod Prelude
pub mod Table
pub mod Redis
pub mod Text
pub mod Service
pub mod Tanks
pub mod Sessions
pub mod Limits
pub mod Calls
pub mod Payments
pub mod Trips
pub mod Prices
pub mod Orders
pub mod Chat
pub mod Organizations

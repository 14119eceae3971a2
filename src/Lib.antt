-- ===== src/Lib.antt =====
-- The core of the Qayoda backend as a shallow embedding: billing (wallets, the ledger, payments and
-- the webhooks of the payment providers, src/modules/billing), the sign-in (sessions, one-time codes,
-- passwords and identities, src/modules/auth), the negotiation of prices (src/modules/price-bids),
-- follows and blocks (src/modules/follows, src/modules/blocks), and the relay of the outbox
-- (src/shared/events). The parts share the users' roles and states; each has its own
-- state record, of the tables that its services read and write.
--
-- The parts and the files that model them:
--   Base: lists, tests, integers, and the reading of texts (UUID_RE, Number, toTiyin, trim, split).
--     Base/Actions: methods as actions on a state, and the rules for what an action keeps (`Holds`).
--   Billing/Types: billing.constants.ts, billing.events.ts and entities/, and what billing reads of
--     users/entities/user.entity.ts.
--   Billing/Store: the database as one record, `Db`: the tables of the entities, the outbox, the
--     clock and the sequences. A method of a service is an `Action`, a function from a `Db` to a
--     result or a failure and the next `Db`. `transaction` undoes what a failed action wrote.
--   Billing/Wallet and Billing/Pricing: wallet.service.ts. Wallet has the balances and the ledger
--     (getBalance, debit, credit, refund, listTransactions, getTransaction, accountNo), Pricing the
--     tariffs, the free actions and the bonuses (charge, chargeTariff, claimFreeAction,
--     freeActionsFor, resolveTimedTariff, bonusFor).
--   Billing/Payments: payments.service.ts. Find has the queries, Transitions the state machine
--     (markPrepared, markPaid, cancel, reverse), Pushes recordPushPayment, Housekeeping the
--     receipts, the audit rows and the expiry of orders.
--   Billing/Topup: topup.service.ts. Billing/Fiscal: fiscal.service.ts. Billing/ClickFiscal:
--     providers/click/click-fiscal.service.ts.
--   Billing/Admin: billing-admin.service.ts, less the lists that only join tables for a screen.
--   Billing/Json: the values of a webhook's body. Billing/Payme, Billing/Click, Billing/Paynet:
--     providers/payme/payme.provider.ts, providers/click/click.provider.ts and
--     providers/paynet/paynet.provider.ts, each from the guards to the answers.
--   Auth/Types and Auth/Store: the entities of auth, what it reads of users, and its state.
--   Auth/Tokens and Auth/SessionList: services/token.service.ts (issuePair, rotate, revokeAllFor,
--     revokeSession, revokeOtherSessions, listSessions, familyOf, purgeExpired). `rotate` is three
--     actions, `rotate_read`, `claim` and `issue_pair`, since other requests run between them.
--   Auth/Guard: guards/jwt-access.guard.ts, with its cache. Auth/Otp: services/
--     phone-auth.service.ts. Auth/Identity: services/identity.service.ts. Auth/Phone: normalizePhone
--     of notifications/eskiz.service.ts.
--   PriceBids/Types, Rules, Place, Answer and Sweep: price-bids.service.ts with its entities, and
--     what it calls of listings.facade.ts (getSummary), blocks.service.ts (assertNotBlocked) and
--     rates.service.ts (toUsd). Place has create and counter, Answer the answers and the lists,
--     Sweep the expiry and the closing of a listing's bids.
--   Social/Types, Blocks, Follows and Lists: follows.service.ts (setFollow, state, page) and
--     blocks.service.ts. Social/Erase: what deleteOwnAccount of users.service.ts writes of them.
--   Outbox/Relay: relay and prune of shared/events/outbox-relay.service.ts.
-- A provider's method first reads a payment and then calls a transition with what it has read. The
-- transitions are conditional updates, so the row may have changed in between. A method that reads
-- and then writes is two definitions here (`perform` and `perform_read`), and the second takes any
-- payment.
--
-- The proofs:
--   Billing/Wallet/Ledger and Balanced, Billing/Settlement: what a debit, a credit and each
--     transition does, and the invariant `IsSound` that all of them keep.
--   Billing/Lifecycle: `Step`, one method at a time, and `Reach`, any sequence of steps, of the
--     payments, charges, refunds and adjustments. markPaid and reverse take a payment that was read
--     earlier (`IsSnapshot`), markPrepared and cancel any payment at all. This is every interleaving
--     of concurrent requests, as far as each transaction is atomic.
--   Billing/Settlement/Written: the row, the ledger and the balance after a payment or a reversal.
--   Billing/Webhooks: whom each webhook lets in, and every change that a call may leave of the
--     payment that it names (PaymeHandled, ClickRuns, PaynetHandled); what is true when Click or
--     Paynet is answered that it is done (ClickConfirmed, PaynetAnswers); Composed has the webhooks as
--     sequences of the steps of Billing/Lifecycle.
--   Billing/Repeated: calls that come twice or too late. Billing/Manual: what an admin changes.
--     Billing/Tiers: the choice of a bonus. Billing/TimedTariffs: the choice of a timed tariff.
--   Auth/Sessions: `Run`, the tables with the rotations that are under way, and `Step`, one read,
--     claim, issue or revocation at a time, so every interleaving of requests. Auth/LogOut: the end
--     of an account's sessions, in the service and in the guard. Auth/Codes: the budget of codes and
--     guesses, for requests one after another. Auth/Passwords, Auth/Identities, Auth/Phone/Normal.
--   PriceBids/Negotiation: the invariant of the table of bids, kept by whole methods and by their
--     single writes with bids that were read earlier; answers, counter-offers and the sweep.
--   Social/Counters: the counters on users against the rows, over any sequence of follows, blocks and
--     ends of accounts. Social/Toggle: a follow that is taken back or made twice.
--     Social/BlockedAmong: the blocks of many people against the blocks of one.
--   Outbox/Waiting and Outbox/Delivered: what is left to deliver after the relay has run.
--   Outbox/Tests, Billing/Tests, Auth/Tests, PriceBids/Tests, Social/Tests: one account, one bid, three people
--     and one order from creation to payment, and the theorems applied to them.
--
-- Conventions. Money is in tiyin: the database holds numeric(14,2), and the sources compute in whole
-- tiyin. A moment is in milliseconds, a uuid is its 128-bit number. Generated keys come from a
-- counter: that they are new is all that is used of them. A rollback gives the counters back, which
-- the database does not do, and again only their freshness is used. A native number has no upper
-- bound: `max_safe_integer` and `max_balance` are tested where the sources test them. TypeORM sets
-- updated_at at each of its updates. All recursion is structural, except that `show_ℕ` counts
-- down from n + 1 while n is divided by 10, so it always reaches the last digit.
--
-- Parameters: base64 decoding and md5 are functions that the webhooks take; the map of available
-- providers is an argument of `create_topup`; the call of Click's receipt server is an argument of
-- `submit`. The relay takes the
-- delivery of an event, whose handlers publish nothing in it. Auth takes sha256 (`hash`), bcrypt (`encrypt`, `compare`), the random texts and the
-- delivery of an SMS; PriceBids the chat and the exchange rate, in hundredths of a so'm for a dollar.
-- An access token is its payload: that its signature verifies is the library's part.
--
-- Not modelled: notes and other free text, logs, checkout links, `overview` of wallet.service.ts,
-- custom tariff codes, numbers of a body that are not whole, exponents and hexadecimal digits in
-- `Number`, spaces beyond Latin-1 in `trim`, and the text form of Paynet's timestamps in replies. A
-- failure of the database itself is not modelled, so the audit row is always written. Of a body that
-- is stored as provider_payload only Payme's payme_time is kept, which is all that is read of it.
-- Of auth the sign-in by Google and Telegram and the cookies are left out, and the snapshot that a
-- provider gives of a profile; of price-bids the texts of messages and the titles of listings. In
-- `resolve` what other requests do before the retry is a parameter. Of follows the counters are natural
-- numbers, as GREATEST keeps them; a search by name is a predicate on users; of the deletion of an
-- account only what it writes of blocks, follows and their counters is modelled.
-- The other modules of the server write users, tariffs, tiers and the clock: the step `configure`
-- gives these any value.
pub mod Base
pub mod Billing
pub mod Auth
pub mod PriceBids
pub mod Social
pub mod Outbox

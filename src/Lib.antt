-- ===== src/Lib.antt =====
-- sucopay: payments in stablecoins, settled by watching a chain. This library models the core of the
-- program, the files under internal/, and proves what it has to get right.
--
-- How the program is put together. A merchant opens a payment (internal/payment/payment.go) of an
-- amount of an asset (internal/payment/money.go, asset.go) to an address, with a deadline. A payer
-- asks for an attempt at it (attempt.go), a key and a deadline to sign against. Watching a chain turns
-- up transfers; evidence.go says what each is worth against the attempt whose key it spends, or
-- against a refund (refund.go). A matched transfer is received by the payment. Before the payment
-- succeeds, the recorded transfer is put to several endpoints of the network
-- (internal/finality/finality.go), of which enough have to agree that the chain will keep it. A
-- payment that no transfer came for is expired once its deadline has passed. Payments, attempts and
-- refunds are rows of a database (postgres.go), each with a version that a save has to name, and
-- service.go is what a handler calls to open, issue, supersede and refund. A payer and a merchant sign
-- what a page gives them (internal/checkout, internal/refund).
--
-- Of several instances, the one that holds a lease reads a network and moves its cursor
-- (internal/observe). Each of its rounds reads the blocks that the chain has finalized since, records the
-- transfers that spend a key of an attempt or of a refund, and has those vanish that the chain does not
-- carry any more; then it reads ahead, up to the head. The rounds of the finality worker
-- (internal/finality/worker.go) put what was recorded to the endpoints, settle what they agree on, take
-- back what they agree is gone, and end what is past its deadline. Whatever changes a payment or a refund
-- writes an event in the same transaction. The rounds of the webhook worker (internal/webhook) turn events
-- into deliveries, one for each endpoint that receives the event, and send them, again and again while
-- they are refused, in order for each payment.
--
-- Which file models which part:
--   Payment/Asset, Payment/Money  Asset, NewAsset, IsSet, Same; Money, NewMoney, Add, Cmp
--   Payment/Units                 ParseMoney, ParseUnits, splitUnits, Units
--   Payment/Status                the statuses of a payment, next, Valid, Final, CanBecome
--   Payment/Problem               Problem, Problems and errTransition
--   Payment/Metadata              metadataProblems
--   Payment/Aggregate             Payment, Request, Stored, New, build, Restore, record, covered
--   Payment/Lifecycle             Await, Receive, CanReceive, Unreceive, Succeed, AwaitFinality, Fail,
--                                 Expire; Moves is sequences of such calls
--   Payment/AttemptStatus, Payment/Attempt
--                                 NewAttempt, RestoreAttempt, Confirm, Unconfirm, Supersede
--   Payment/RefundStatus, Payment/Refund
--                                 NewRefund, RestoreRefund, Settle, AwaitFinality, Expire, Holds
--   Payment/Evidence              Transfer, Judge, JudgeRefund, screen
--   Payment/Store                 the rows of internal/payment/postgres.go, checkEvent and writeOutbox
--   Payment/Store/Payments        Create, Find, FindByKey, Save, savePayment
--   Payment/Store/Attempts        Issue, FindAttempt, Live, Attempted, SaveAttempt
--   Payment/Store/Refunds         CreateRefund, FindRefund, FindRefundByKey, SaveRefund, remaining, refunded
--   Payment/Store/Observations    recordOne, Disagree, Agree, and the rows of observations
--   Payment/Store/Arrivals        Record, Vanish; arrived, vanish, taken, unconfirm, unreceive
--   Payment/Store/Backed, Payment/Store/Unconfirming, Payment/Store/Vanishing, Payment/Store/GivenUp,
--   Payment/Store/Quiet, Payment/Store/Recording, Payment/Store/Recorded, Payment/Store/Sweeping,
--   Payment/Store/Rereading, Payment/Store/Arriving
--                                 what a database keeps through Record and Vanish
--   Payment/Store/Transfers       MatchedTransfer, RefundTransfer
--   Payment/Store/Queries         Consumed, RefundsConsumed, Candidates, Undecided, Disagreeing
--   Payment/Store/Dues            Open, OpenRefunds, Overdue, Unsettled, RefundCandidates,
--                                 OverdueRefunds, UnsettledRefunds
--   Payment/Store/Steps           a relation of a database and the one after a transaction
--   Payment/Service               internal/payment/service.go: OpenAs, opened, Issue, Supersede, OpenRefund,
--                                 Refundable
--   Payment/Service/Reads         Open, Find, Await, Refund, RefundByKey, Refunded
--   Payment/Service/Steps         a relation of a database and the one after a call about attempts
--   Checkout                      internal/checkout: Typed of typed.go; Reason, Build, Readable of state.go
--   RefundPage                    internal/refund: Typed of typed.go; Reason, Build of state.go
--   Observe/Lease                 internal/observe/lease.go: Acquire, Renew, Release
--   Observe/Cursor                internal/observe/cursor.go: Get, Has, Touched, Init, Advance, Set
--   Observe/Chain                 Chain and what it answers, of internal/adapter/chain/chain.go
--   Observe/Pace                  internal/observe/observer.go: after, and the widths of settled and ahead
--   Observe/Reading               seen, keys, transactions, transferred, behind
--   Observe/Tick                  tick, went, settled, ahead, write, stood, at, holds, standing
--   Finality/Ask                  Ask, asked, settled of internal/finality/finality.go
--   Finality/Worker               internal/finality/worker.go: told, returned, pay, settle, decided
--   Finality/Worker/Sweep         swept, sweptRefunds
--   Finality/Worker/Round         round
--   Finality/Worker/Stages, Finality/Worker/Agreed, Finality/Worker/Patience, Finality/Worker/Expiry
--                                 what a round decides, and when
--   Webhook                       the rows of internal/webhook/postgres.go, Receives, Delivered
--   Webhook/Schedule              NextAttempt of internal/webhook/delivery.go
--   Webhook/Endpoints             Create, List, Get, Update, Rotate, Delete, Secrets
--   Webhook/Deliveries            Expand, Due, Attempted, Sweep, Test, Resend, Deliveries
--   Webhook/Worker                Round, send of internal/webhook/worker.go
--   Webhook/Once, Webhook/Orphans, Webhook/Refusals
--                                 which deliveries are due, which are left for no endpoint, and which end
--   Credential                    internal/credential/credential.go: NewID, ParseID, ParseKey, Hex
--   Credential/Store              internal/credential/postgres.go: Accounts, Create, FindByToken, List,
--                                 InForce, Revoke, RecordUse
--   Credential/Store/Promise, Credential/Store/Revoked, Credential/Store/Found
--                                 what a token opens, and what is listed
--   Credential/Minted             what is minted and read back
--   Text/Invisible                Has of internal/invisible/invisible.go
--   Text, Text/Utf8, Text/Hex, Text/Decimal
--                                 what the code uses of Go's strings, unicode/utf8, encoding/hex,
--                                 math/big and strings
--   Prelude                       the names and lemmas that the others share
--   Scenarios                     the theorems at concrete payments, transfers and endpoints
--
-- How values correspond. A Go string or byte slice is a Text, a list of bytes as natural numbers. A
-- time.Time is the nanoseconds since the zero time, which is 0; the difference of two moments is not
-- cut off at an int64 of nanoseconds. A string type that has constants is a data type with a
-- constructor for each and `other` for the rest. An error is a constructor that carries the values
-- that the message is made of. A *big.Int is an integer until NewMoney took it and a natural number
-- then. A map is the list of its entries. What a random source answers is an argument, none where it
-- fails. A method that changes its receiver returns the changed record, or an error and no change, as
-- the code leaves the receiver alone then. The chain behind an endpoint is a parameter: what it
-- answers for a transaction and what it says is final, while one transfer is asked about.
--
-- The database is lists of rows. A statement of SQL is what it does to them, with the checks and the
-- unique indexes that internal/postgres/migrations declares, in the order in which PostgreSQL tries them;
-- a transaction is one function from a database to the next, which leaves it alone on an error. The
-- columns of an amount and of metadata are the values that they hold, since ParseMoney and JSON read back
-- what was written. What the database's clock says is an argument. A foreign key is checked where the
-- source relies on it, and a numeric column holds any number. What PostgreSQL reads of a text that it
-- takes for numeric(78, 0) is a parameter, and so is the JSON of an event. The statements on webhooks
-- work on tables of their own, Hooks, which hold the rows of the outbox that are still to be expanded.
--
-- A round of a worker is one function of what it remembers and a database. What is outside of it is a
-- parameter, gathered in a record: the chain that the observer reads (Observe.Chain), how each call to an
-- endpoint of a network ends for each transfer (Replies), how a delivery is sent (Sending), the
-- identifiers of new rows and the cipher of the secrets of endpoints. The random share of a pause between
-- rounds is an argument. Nothing else writes to the database within a round. Credentials have
-- tables of their own, and the keyed hash of a token is a parameter.
--
-- No definition but the printing of a number runs on fuel: each loop goes once through a list or the
-- bytes of a text, and decoding UTF-8 recurses on the length that is left. Printing a number has the
-- number itself for fuel, which is enough as each step divides it by ten.
--
-- Not modelled: the loops (Run) around the rounds of the observer and of the two workers, in which they
-- ask for a lease, wait, and say how they stand; the observer's probe of an endpoint that holds no lease
-- and its reading of a token's implementation (probe, looking, upgraded); of the webhooks, Allowed,
-- Stand, the sending by HTTP, the signing and the encryption; of the credentials, the derivation of keys
-- and what hides a token from a log; and HTTP, JSON-RPC, configuration, the command line and logging.
pub mod Prelude
pub mod Text
pub mod Payment
pub mod Finality
pub mod Checkout
pub mod Credential
pub mod Observe
pub mod RefundPage
pub mod Webhook
pub mod Scenarios

-- ===== src/Lib.antt =====
-- The payment system: a verification library for the Go services of this repository.
--
-- The parts and how they interact. A request reaches the payment service, which stores a payment,
-- tells the publisher, and then either hands it to the saga orchestrator or itself asks the wallet
-- service for the money and, in a goroutine, the gateway service for the payment; a refusal of the
-- gateway makes it ask the wallet service for a refund. The wallet service works on a repository
-- with optimistic locking. The gateway service calls a provider behind a circuit breaker. All of
-- them hand their events to the publisher. The event store is a log of the events of aggregates,
-- with queries, snapshots and subscriptions. On top of it stand the aggregates of payments and
-- wallets with their repository, an event-sourced saga, and the manager that compensates a failed
-- payment with retries and a dead letter queue; beside it, a wallet service with three strategies of
-- concurrency control and a router of events to partitions.
--
-- The files:
--   Prelude        Boolean tests, lists over the native numbers, 64-bit words, maps and results.
--   EventStore     pkg/eventstore/eventstore.go and memory_store.go. Event has the types and the
--                  filter; Memory has the state `Store` (MemoryEventStore) and a function for each
--                  method: append_event, append_events, get_events, subscribe, close and so on. Log
--                  has the abstract view that the store promises, Append, Batch and Atomic the
--                  proofs on appending, Reads those on queries and Feed those on subscriptions.
--   Aggregate      pkg/eventstore/aggregate.go and aggregates.go: Base (BaseAggregate, the routers),
--                  Repository (AggregateRepository: save_aggregate, load_aggregate, load_version),
--                  Payment and Wallet (the two aggregates and their commands); Replay, Versions,
--                  Conflicts, Snapshots and Lifecycle, the proofs on loading, on saving again and on
--                  the states of a payment.
--   Concurrency    pkg/eventstore/concurrency_control.go: Partition (PartitionedEventProcessor),
--                  Balances (ConcurrentWalletService), LockTable (getLock of UserLockManager, as
--                  steps of its calls) and Locks (LockUser and RLockUser on one user's lock, as a
--                  step relation); Routing, Steps, Optimistic, OneLock, Exclusion and Orphans, the
--                  proofs.
--   Recovery       pkg/eventstore/error_handling.go: Substring (contains), Retry
--                  (ExponentialBackoffRetrier), DeadLetters (DeadLetterQueue), Compensation
--                  (CompensationManager); Rounds, Kept, Queue, Held, Retried, Compensated and
--                  Failing, the proofs.
--   PaymentSaga    pkg/eventstore/payment_saga.go: Operations (PaymentSagaOrchestrator) and History,
--                  the proofs.
--   Events         internal/events: Types (types.go), Publisher (publisher.go), and Delivery, the
--                  proofs on what reaches Kafka.
--   Gateway        internal/services/gateway/service.go: Breaker (CircuitBreaker), Service
--                  (ProcessPayment as `process_payment`, callGatewayAPI, the events), Circuit and
--                  Outcomes, the proofs.
--   Wallet         internal/services/wallet/service.go: Entity, Service (ValidateBalance,
--                  DeductBalance, RefundBalance, GetTransactionHistory); pkg/database/repositories.go:
--                  Sql (WalletRepository); Ledger, Effects and Sequences, the proofs on the two together.
--   Payment        internal/services/payment/service.go: Entity, Service (ProcessPayment, and its
--                  goroutine as `settle`); Sql (PaymentRepository of pkg/database/repositories.go);
--                  Money and Settlement, the proofs on what a payment and its goroutine do to
--                  wallets, and Status, those on what the table of the payments then holds.
--   Saga           internal/saga/orchestrator.go: Model (sagas, steps, interfaces), Orchestrator
--                  (executeSaga, executeStep, compensateSaga, RecoverPendingSagas,
--                  StartPaymentSaga), Sql (SagaRepository of pkg/database/repositories.go), and the
--                  proofs: Outcome on how a saga ends, Retries on one step, Roundtrip and Stored on the
--                  table.
--   Tests          concrete inputs at which the theorems apply.
--
-- How the code is read. A method with a pointer receiver is a function from the state before to the
-- state after; a returned error is an option or a result. An int64 is its bit pattern, a number
-- below 2 ^ 64, and the arithmetic on it wraps around; the theorems that need it say that a counter
-- is below 2 ^ 63. A uuid is a number and a time is a number of nanoseconds; both are inputs, as are
-- the random draws of the simulated gateway. The lock of the event store makes each of its methods
-- one step; the gateway service has no lock, and its calls run one after the other here. A context
-- is an option of its error. A channel is a list with a capacity.
--
-- Loops are recursion on the list that the source ranges over; the retries of a saga step are
-- recursion on the number that is left, and so are the retries of an operation and the rounds of an
-- optimistic write, whose number the source fixes before the loop. No definition runs on fuel.
--
-- Concurrency. What a goroutine does under a mutex is one step. Between the read and the write of
-- an optimistic round the other goroutines make a list of calls; the lock of a user is a relation
-- between the states of all calls for it, so that every order of acquiring, timing out and
-- releasing is one of its runs. That sync.RWMutex keeps a writer apart from every other holder is
-- its documented behaviour: it is the guard of a step that takes a user's lock, and makes each of
-- the two looks of getLock one step.
--
-- Parameters. A float64 is a type with its operations (the record Float). JSON encoding and the
-- Kafka writer are functions that the publisher takes, and the columns that hold JSON go through an
-- encoder and a decoder that are parameters too. The step executors, the repository and the clock
-- of a saga are records that the orchestrator takes, and so are the collaborators of the payment
-- service; the theorems on sagas hold of any of them. The theorems on money take the wallet service
-- and its SQL repository as modelled and leave everything else open. PostgreSQL runs a statement as
-- a whole or not at all, keeps the CHECK constraints of migrations/001_create_tables.sql, and may
-- fail any statement: a list of faults says which.
--
-- Not modelled. That the panic of a saga step with a negative number of retries, which no saga of
-- the source has, ends the whole process: here the saga stays as it stands. Aliasing: an event that
-- its owner changes after it was appended changes in the source's log too, and here it does not.
-- Foreign keys, and the width of the column wallets.version. The goroutines of RecoverPendingSagas
-- run one after the other. The fairness of a read-write lock. The applier that finds an aggregate's
-- methods by reflection. Logging. The PostgreSQL event store, read models, metrics, the HTTP
-- server, configuration, health and observability.
pub mod Prelude
pub mod EventStore
pub mod Aggregate
pub mod Concurrency
pub mod Events
pub mod Gateway
pub mod Payment
pub mod PaymentSaga
pub mod Recovery
pub mod Saga
pub mod Wallet
pub mod Tests

-- ===== src/Lib.antt =====
-- A loyalty programme: users register, upload the numbers of their orders, are credited points for
-- the orders by an external accrual system, and pay with points. The server is written in Go; this
-- library models its logic and states what makes it correct.
--
-- Parts and how they interact. The HTTP handlers (internal/user/handler.go, internal/order/handler.go,
-- internal/balance/handler.go), behind the token check of internal/user/middleware.go, call services,
-- which call repositories on PostgreSQL. An uploaded order is stored as NEW and handed to the worker
-- pool (internal/order/worker.go), which polls the accrual system through pkg/accrualclient, stores
-- the answer and calls the balance service to credit the points.
--
-- Files:
--   Luhn            pkg/luhn/luhn.go: Valid
--   Errors          the error values of all packages, errors.Is and errors.As, and the monad of calls
--                   that act on a state and may fail
--   Pg              PostgreSQL and pgx as a parameter: tables of migrations/postgres, statements as
--                   their effect, and the laws of queries and transactions; Pg/Memory is an
--                   instance, Reliable a server that does not fail, and Lookup, Sorting, Queries
--                   and Reads are lemmas on queries
--   Http, World     internal/httputil/httputil.go, requests and responses, and the world of calls
--   Balance         internal/balance/repo.go: WithdrawBalance is withdraw_balance, CreditAccrual is
--                   credit_accrual; Balance/Service and Balance/Handler are service.go and handler.go,
--                   Debit, Withdraw, Credit, Success, Ledger, Responses and Listing are proofs
--                   about them
--   AccrualClient   pkg/accrualclient: model.go and contract.go; Client is client.go (GetOrderInfo is
--                   get_order_info), Retry is config.go and retry.go
--   Order           internal/order/order.go and repo.go; Accrual is accrual.go (PollOrder is
--                   poll_order), Service and Handler are service.go and handler.go; Upload,
--                   Pending, Starvation, Responses, Endpoint, Accepted, Listing and Polling are proofs
--                   about them
--   Worker          internal/order/worker.go, one call at a time (processJob is process_job,
--                   applyAccrualUpdate is apply_accrual_update); Queue and RateLimit are the
--                   interleaved steps of its goroutines, Config is NewAccrualWorkerPool, Wiring puts
--                   it over the repositories as cmd/gophermart/di/app.go does; Requeue, Deadline,
--                   Scan, Starvation, Stores, Update, Payment, Paid and Journey are
--                   proofs about one call, the last from the upload of an order on
--   Auth            internal/auth/jwt.go: Generate and Parse
--   User            internal/user/user.go and repo.go; Service, Hasher, Handler and Middleware are the
--                   files of those names; Context is the part of middleware.go on the context;
--                   Accounts, Registration, Login and Session are proofs about them
--   App             cmd/gophermart: Mux is NewMux of di/app.go, Startup its initialize and the shutdown
--                   function of NewApp, Lifecycle the steps of main.go, Run of di/app.go and Start of
--                   di/server.go; Routing, Access, Started, Shutdown, Progress and Abandoned are
--                   proofs about them
--   Config          internal/config/config.go and defaults.go; Loader is loader.go (Load is load);
--                   Settings, Layers, Chain, Loaded, Precedence and Variables are proofs
--                   about it
--   Migrator        pkg/pgmigrator/migrator.go, with its proofs in Outcome
--   Logger          internal/logger/logger.go, with its proofs in Transparency
--   Encryption      pkg/encryption/encryption.go, which no other package uses
--
-- Representation. Strings are lists of bytes, UUIDs are natural numbers with uuid.Nil as 0, times and
-- durations are nanoseconds. Amounts of points, float64 in Go and NUMERIC in the tables, are whole
-- numbers of a smallest unit, so rounding is not modelled. Where Go's int64 can overflow (the
-- deadline of the rate limit, the Retry-After header, the sizes of the pool), the wrap-around is
-- written out. A statement of a repository is built without an error, since the builder is given
-- constant columns.
--
-- Foreign code is a parameter with named laws: PostgreSQL and pgx (Pg, PgLaws), golang-jwt and
-- google/uuid (JwtLib, JwtLaws), bcrypt (Bcrypt, BcryptLaws), AES-GCM (CryptoLib, CryptoLaws), the
-- HTTP client with its retries and encoding/json (HttpClient, and the decode argument of the
-- handlers), chi (ChiLib, ChiLaws), koanf and pflag (KoanfLib, KoanfLaws, FlagLib), the operating
-- system (OsLib), golang-migrate (MigrateLib), zap and pgxpool (StartupLib), the server's response
-- writer (ResponseWriter, WriterLaws), the clock, and the largest size of a channel that the Go
-- runtime accepts. The foreign keys of orders and balance_accruals are checked by their statements;
-- a row of user_balance stands for a user, so those of withdrawals and of the credited balance hold
-- once the statement before has matched. A server may fail at any call; an error of a statement
-- outside a transaction, or of a commit, may come after the effect. Transactions are serial. Error
-- values of foreign code are none of the program's own.
--
-- Loops are structural recursion: the attempts of the migrator count down from 20, as in the source.
-- The goroutines' loops are step relations of which any finite run is considered.
--
-- Not modelled: the ids of withdrawals, whose clash would be reported like a repeated withdrawal;
-- log output; the texts of errors; closing of bodies; how the number of workers, which is no text,
-- passes through the layers of the configuration; generated mocks and the test containers, which
-- are used by tests only.
pub mod Prelude
pub mod Luhn
pub mod Errors
pub mod Pg
pub mod Http
pub mod World
pub mod Balance
pub mod AccrualClient
pub mod Order
pub mod Worker
pub mod Auth
pub mod User
pub mod Encryption
pub mod Migrator
pub mod Logger
pub mod Config
pub mod App

-- ===== src/Lib.antt =====
-- A model of the backend's own logic, with the theorems that make it correct.
--
-- The program is a set of Go services around PostgreSQL, Redis and Kafka. A user's write goes to one
-- service (services/post, services/message, services/social, services/auth), which changes its tables
-- in one transaction; events leave through an outbox to Kafka; workers (services/feed,
-- services/indexer, services/notification) consume them with shared/consumer and push posts into home
-- feeds, which services/post merges with the posts of large accounts by shared/feedplan.
--
-- What is modelled, by file:
--
--   Feed.Plan, Feed.Batches, Feed.Merge: shared/feedplan/feedplan.go. `Policy` with its defaults and
--     `Decide`; `Batches`; `Merge`, `Cursor`, `CursorOf` and `Before`. Feed.Merge.Order, .Source and
--     .Paging hold the theorems on `Merge` and `Before`, .Cut the one on a merge of pages.
--   Feed.FanOut: `FanOut` of the same file, whose goroutines are the steps of a relation, in any order.
--     Feed.FanOut.Ending shows that it ends.
--   Feed.Store: shared/backend/redis.go's `FeedItems`, over the two commands of Redis that it sends;
--     Feed.Store.Window says what they answer for a sorted set.
--   Feed.Worker: services/feed/worker/feed_worker.go, over the graph and a run of `FanOut`.
--     Feed.Worker.Delivery holds the theorem.
--   Consumer.Tracker: shared/consumer/tracker.go, every method, over the map from partitions to their
--     states. Its children hold the theorems: .Watermark (one partition), .Keys (the map) and .History
--     (any sequence of calls, newest first).
--   Consumer.Config, Consumer.Backoff, Consumer.Process: shared/consumer/consumer.go. `withDefaults`,
--     `backoff` and `process` with its two loops. What the loop sees of the handler, of the publisher
--     and of the two ways to stop is an `Environment`; what it does is a list of effects.
--     Consumer.Process.Outcome holds the theorem.
--   Consumer.Run: `route`, `commit` and `Run` of the same file. The fetch loop, the workers and the
--     committer are the steps of a relation on the local variables, so every schedule is a sequence of
--     steps. Consumer.Run.Order and .Commits hold the theorems, .Traced what ties a state to the calls of
--     the tracker.
--   Message.Names, .Tables, .Send, .Read, .Page and .Inbox: services/message/service/message.go,
--     with the tables of migrations/0001_init.sql. Each SQL statement is a
--     function on the tables. A request meets a `Weather`: the calls of the database that return an
--     error, and whether a commit whose answer was lost took effect. Message.Invariant,
--     .Appended and .Valid hold the invariant of the tables, Message.Retry and Message.Once the repetition of
--     a keyed request, and Message.Window the pages of `GetMessages`, whose limit is
--     shared/pagecursor/pagecursor.go's.
--   Transaction: shared/db/db.go's `InTx`, and what a service's calls of the database can meet.
--   Outbox.Table, Outbox.Relay: shared/outbox/pgstore.go and outbox.go, with the outbox table. A pass of
--     the relay meets a `World`: the broker's answers, failing updates of the table, the clock and the
--     end of the context. Outbox.Rows, .Delivery, .Draining and .Claims hold the theorems.
--   Post.Tables, .Counts, .Create, .Delete, .Likes, .Cleanup, .Live: services/post/service/post.go and
--     store.go. The requests write their events through Outbox and count through Counter.
--     Post.Invariant, .Growth, .Removal, .Liking, .Valid and .Reachable hold the agreement of the tables
--     with the outbox; .Counting, .Saving, .Cleaning and .Drained the theorems on single operations.
--   Post.Home: services/post/service/feed.go, which puts Feed.Store, Feed.Merge, Social.Graph, Pagecursor
--     and the posts table together. Post.Home.Loading and .Sources hold what its two sources give,
--     .Exact one page, and .Reading the pages that a client reads.
--   Post.Search: the searches and listings of services/post/service/post.go, with the ids that
--     shared/backend/search.go gets from Elasticsearch as a parameter.
--   Post.Reconcile: services/post/service/reconcile.go, with the other writers of the posts as a function
--     that changes them before each update. Post.Reconciled and .Repairs hold the theorem.
--   Post.Comments: services/post/service/comments.go, with the comments table. Post.Threaded holds the
--     theorem.
--   Pagecursor: shared/pagecursor/pagecursor.go, over JSON and base64.
--   Indexer: services/indexer/worker/indexer.go, with `IndexVersioned` of shared/backend/elasticsearch.go.
--     Indexer.Steps lets many indexers work on one index while posts come and go; .Source shows that the
--     statements of Post.Tables and of the indexer are such steps; .Consistent and .Convergence hold the
--     invariant, .Current, .SyncAll and .Rebuild what one answered Sync and Reindex leave.
--   Notification: services/notification/worker/notification_worker.go, over the notifications table.
--   Idempotency: shared/idempotency/idempotency.go, over the commands of Redis that it calls (parameters,
--     whose effects Idempotency.Claims names) and over the writing and reading of JSON; `runs_handler` is the
--     switch of `withIdempotency` in services/post/handler/post.go.
--   Social.Graph, Social.Follow: shared/socialgraph/socialgraph.go and services/social/service/follow.go.
--     Social.Valid holds the invariant of the follows table, Social.Order and .Paging the pages.
--   Counter: shared/counter/counter.go over the commands of Redis that it calls (parameters, whose
--     effects Counter.Contract names: a call that returns an error had its effect or none). Counter.Conserve, .Balance and .Flushing hold the theorems.
--   Common: Boolean tests, lists, counts, byte strings, sorting, pages of a sorted list, Go's signed
--     integers, and results.
--   Examples: concrete runs.
--
-- Bounds and fuel. `Batches` takes one round for each id, which is enough because a batch is never
-- empty. `process` has two loops: the first is bounded by MaxAttempts, the second publishes until it is
-- accepted or the worker stops; its rounds are fuel, one for each attempt until one of these
-- happens. `Reindex` reads its pages on fuel, one for each post and one more, and a client that reads a
-- home feed sends one request for each entry of the feed and one more. `strconv.FormatInt` takes as
-- many rounds as the number has units. The 64-bit shift of `backoff` keeps its wrap-around; other numbers do not come near their bounds and are unbounded.
--
-- Assumptions. Times and partitions are natural numbers. A user id is the sequence of its bytes; a
-- message's content is the sequence of its characters, as the length limit counts them, and is text
-- that PostgreSQL accepts. A map is a list of entries; its order shows nowhere, since `Committable`
-- sorts what it collects. `sort.Slice` is an insertion sort: the theorems use only that the result is
-- an ordered permutation. A transaction runs alone on the tables it reads, which the row lock of its
-- conversation provides; what it writes appears at the commit or not at all.
--
-- A new id (uuid.New) is an argument of the request that makes it. The rows of the outbox are those
-- before `Prune` removes old ones. `AllFollowers` takes as fuel one round for each follower that it may
-- return, and one more. The floating-point product of the outbox's `Backoff` is taken to be exact.
--
-- Steps. A relation leaves the scheduler free: a goroutine does one thing at a time, at a time that is not
-- fixed, and a step that the code takes only sometimes (a send after a cancellation) may always be taken.
-- The source of the consumer gives the offsets of a partition in increasing order; a consumer group that
-- gives partitions to another process is not modelled. A page of the home feed is read from tables and
-- sorted sets that do not change meanwhile.
--
-- Not modelled: the relay's ticker loop, the sharing of one load by concurrent callers
-- (shared/cache/cache.go), the expiry and the trimming of keys in Redis, the auth service, the backfill
-- tool, and the HTTP handlers but for that switch. The clients of PostgreSQL, Redis, Kafka, Elasticsearch, OpenAI and the
-- object store are third-party code.
pub mod Common
pub mod Consumer
pub mod Counter
pub mod Examples
pub mod Feed
pub mod Idempotency
pub mod Indexer
pub mod Message
pub mod Notification
pub mod Outbox
pub mod Pagecursor
pub mod Post
pub mod Social
pub mod Transaction

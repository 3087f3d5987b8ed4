-- ===== src/Lib.antt =====
-- Comment-Project is a comment platform of five Go services. comment-service holds the posts,
-- likes, comments and accounts in MySQL and adds counter deltas to Redis; comment-task turns the
-- deltas into booked counts; comment-student, comment-tutor and comment-operator are the gateways.
--
-- Counter (comment-task/internal/task/post_like_counter.go and post_comment_counter.go,
-- comment-service/internal/data/post_like_counter.go, post_comment_counter.go,
-- post_counter_delta.go and post_counter_store.go). A delta of a post goes from the Redis hash
-- `delta` by a Lua script into an entry of `processing_batch`, from there into a row of
-- `counter_batch`, and in one transaction into `post_counter`, after which the entry is cleared.
--   Counter/State: the Redis keys of a kind and the MySQL tables. Counter/Scripts: the three Lua
--   scripts, a step each. Counter/Flush: schedulePostCounterFlush, recheckPostCounterReady,
--   claimPostCounterDelta, insertCounterBatch, flushPostCounterByPostID. Counter/Batches:
--   applyCounterBatch, applyDueCounterBatches, markCounterBatchFailed,
--   recoverProcessingCounterBatches. Counter/Read: the enqueue and the delta that a reader adds.
--   Counter/Reconcile: reconcilePostCounters.
--   Counter/Ledger: the steps as a relation and the account of a post, which is what is pending, what
--   is in open batches and what post_counter holds. No step marks a booked batch as failed, which
--   the code can do (Counter/Recovery.booked_twice). The children of Counter/Ledger and
--   Counter/Conservation follow the account through every run; Counter/Handlers and
--   Counter/Recovery show the handlers to be such runs; Counter/Marks, Counter/Delivery,
--   Counter/Stored, Counter/Counts and Counter/Stuck are about the marks of dirty posts, the way of
--   one delta, the counts, and a delta of zero.
-- Facts (comment-service/internal/data/student.go, tutor.go and operator.go, internal/biz): likes and
--   comments, each write with the delta that it records. Facts/Likes, Facts/Comments and
--   Facts/Record model the code; Facts/LikeCount and Facts/CommentCount compare the deltas with the
--   counts that the reconciliation asks for.
-- LikeFlow: the requests of likes and the steps of the counter together, in any order; LikeFlow/Balance
--   leads from the likes to the count in post_counter.
-- Auth (comment-service/internal/biz/auth.go, internal/data/auth.go,
--   comment-student/internal/auth/auth.go): Auth/State and Auth/Repo are the tables and the
--   repository, Auth/Usecase the use cases, Auth/Verify the gateway's check of an access token.
--   Auth/Rotation, Auth/SingleUse and Auth/Spent follow a spent token through any requests;
--   Auth/Access and Auth/Renewal follow issued tokens.
-- Snowflake (comment-service/pkg/snowflake/snowflake.go): the ids, with Snowflake/Order.
-- EsSync (comment-task/internal/task/es_sync.go and comment.go): the rows that Canal reads from the
--   binlog go into Elasticsearch. EsSync has the versions, EsSync/Row the documents, EsSync/Index the
--   write of a row, EsSync/Messages the events of a message, EsSync/Retry and EsSync/Handlers the
--   handler with its tables es_sync_retry and es_sync_dlq, EsSync/Passes the retry worker.
--   EsSync/Newest, EsSync/Documents, EsSync/Binlog and EsSync/Runs follow the document of a row, EsSync/Saved and
--   EsSync/Lossless the events of a message, EsSync/Retried, EsSync/Worker, EsSync/NoLoss and
--   EsSync/Attempts the rows of the retries. EsSync/Canal says what Canal and encoding/json promise,
--   EsSync/Binlog that a document has one change at a position of the binlog (the code skips the second
--   row of a document that a message has under one position),
--   EsSync/Index.IsElastic what Elasticsearch does.
-- Outbox (comment-service/internal/data/post_counter_dirty_outbox.go and post_like_dirty_kafka.go): the
--   notices of posts that became dirty, which wake the task. Outbox has the statements and the pass of
--   the publisher, Outbox/Steps their interleavings, Outbox/Publish shows the pass to be one,
--   Outbox/Honest follows rows and passes, and
--   Outbox/Sending and Outbox/Deliver follow a row to the topic and to the task.
-- RateLimit (comment-student/internal/ratelimit/limiter.go): the token buckets of a request. RateLimit
--   has the script and the decision, RateLimit/Keys the buckets of a request, RateLimit/Script,
--   RateLimit/Distinct and RateLimit/Requests follow one request, RateLimit/Bounds the contents.
-- PostCache is comment-service/internal/data/post_split_cache.go: a post is cached as a body and its
--   counts, and a load reads, completes and refills the two parts. The queries of the database are
--   parameters; PostCache/Coherent says when a cache is true, PostCache/Counts
--   and PostCache/Load follow a load. A write
--   of another caller between the steps of a load and the times to live are left out.
-- Common holds dictionaries, tables in the order of insertion, integers, sums, and texts with Go's
--   functions on them, on ASCII texts.
--
-- A call of Redis or MySQL has an outcome (Common/Outcome): it answers, it fails without an effect,
-- or its effect stands and the answer is lost. The statements of likes and the deletions of comments
-- have the three in a form of their own; the creation and the audit of a comment and the tables of
-- Auth are modelled where MySQL answers. The drawn ids, the random texts and the readings of
-- the clock are arguments. Cryptography, JSON and base64 are parameters with stated hypotheses
-- (Auth/Usecase.Crypto, Auth/Access.IsCoding,
-- EsSync/Retry.Codec, EsSync/Canal.IsCodec); so are Elasticsearch, the package net and the numbers of
-- Lua, which are doubles (RateLimit.Numbers, RateLimit/Bounds.IsNumbers; no NaN arises). The integers of Redis and MySQL are unbounded, the
-- 64-bit ids of Snowflake are not; times are milliseconds in the counters and nanoseconds in the
-- tokens, without the rounding of DATETIME columns. The fuel of the decimal printer is the number
-- and one more, and the loops of the code run over the lists that they are given.
--
-- Not modelled: the caches of comments and lists, Bloom filters, search, the gateways' handlers,
-- transport, configuration and observability, and the generated code.
pub mod Common
pub mod Counter
pub mod Facts
pub mod Auth
pub mod Snowflake
pub mod EsSync
pub mod Outbox
pub mod RateLimit
pub mod LikeFlow
pub mod PostCache

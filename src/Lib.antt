-- ===== src/Lib.antt =====
-- Pipeline server: the refinement of driving-video metadata, as a service with an outbox.
--
-- The program takes three files of raw rows (selections, ODD tags, labels), stores them in MongoDB,
-- and refines them in three phases into MySQL tables. A request creates a task and, with it, a
-- message in an outbox. A poller runs the relay, which publishes the pending messages to a broker,
-- and the recovery, which takes back those whose publication was never finished. A worker receives
-- the task's id and executes the pipeline: for each stage in order it runs the phase or, when an
-- earlier run has completed it, takes what is recorded in the task.
--
-- The files and what they model:
--   Prelude, Prelude/*      shared names, Boolean tests, lists, and the integers of the language
--   Result, Effects         statements that may raise, without and with a state. An exception keeps
--                           what was written before it. Result/Gives, Effects/Keeps,
--                           Effects/Returns and Effects/Results are the rules for proofs about such statements
--   Python                  the values of raw rows and documents, with the operations on them
--   Domain/Enums            app/domain/enums.py
--   Domain/Errors           app/domain/exceptions.py
--   Domain/Values           app/domain/value_objects.py: a record per class, `new_...` for a call of
--                           the class with its __post_init__
--   Domain/Models, Task, Outbox   app/domain/models.py: the records, and the transitions of
--                           AnalyzeTask and OutboxMessage
--   Domain/Ports            app/domain/ports.py: the repositories of tasks, outbox messages,
--                           rejections and search results, the dispatcher, the transactions and the
--                           ids, as records of operations with what their documentation promises
--   Application/Relay       app/application/outbox_relay_service.py: relay and recover_zombies, each
--                           loop and each try as a definition
--   Application/Phases      app/application/phase_runners.py: PhaseRunner.run with its loop over
--                           chunks, and the link checks of the two later phases; Phases/Runners has
--                           the three runners with their refiners
--   Application/Ingestion   app/application/data_ingestor.py: ingest, with its loop over chunks
--   Application/Loaders     app/application/file_loaders.py: the two loaders and the choice of one
--   Application/Analysis    app/application/analysis_service.py and decorators.py: submit
--   Application/Reads       app/application/task_read_service.py, rejection_read_service.py and
--                           data_read_service.py
--   Application/Refiners    app/application/selection_refiner.py, odd_tag_refiner.py and
--                           label_refiner.py: each field's parser, and the collection of the rejections of a row
--   Application/Pipeline    app/application/pipeline_service.py: execute with its try (while_task
--                           says which value the variable `task` has when a statement raises),
--                           _run_phases and _build_result
--   Mongo/Documents         app/adapter/outbound/mongodb/documents.py
--   Mongo/Mappers           app/adapter/outbound/mongodb/mappers.py
--   Mongo/Driver            the collection of the driver, a parameter with its documented effects
--   Mongo/Outbox            MongoOutboxRepository of app/adapter/outbound/mongodb/repositories.py;
--                           Mongo/Outbox/Contract fills the port with it
--   Mongo/Tasks             MongoTaskRepository of the same file
--   Mongo/Raw               MongoRawDataRepository of the same file
--   Mongo/Transaction       app/adapter/outbound/mongodb/transaction.py, over the library's client:
--                           execute, and a call that is handed the session of the context
--   Sql/Entities, Mappers   app/adapter/outbound/mysql/entities.py and mappers.py
--   Sql/QueryBuilder        app/adapter/outbound/mysql/query_builder.py. A statement is the list of
--                           its conditions with join, order, offset and limit; what a server answers
--                           to it is stated in QueryBuilder/Meaning
--   Sql/Session, Repositories   app/adapter/outbound/mysql/repositories.py, over the library's session
--   Rest/Schemas, Requests  app/adapter/inbound/rest/schemas.py: responses, and requests with the
--                           checks that they pass
--   Rest/Mappers, Routers   app/adapter/inbound/rest/mappers.py and routers.py
--   Rest/Handlers           the handlers of exceptions of app/main.py
--   Rest/Wiring             the ingestor and the analysis service of app/rest_dependencies.py over
--                           their adapters
--   Worker/Tasks            app/adapter/inbound/worker/pipeline_task.py and outbox_poller_task.py, and
--                           the session of a request (get_db_session of app/rest_dependencies.py)
--   Worker/Wiring           the two services of app/worker_dependencies.py over their adapters
--   Tests                   a small world in which the program runs, and the theorems applied there
-- A child module holds what is proved of its parent.
--
-- The state. Each service runs over a state of any type, which its ports read and write; a statement
-- is a function from a state to a result and a state. The clock is a part of that state. Whatever
-- a port may do, to raise included, is covered by what the port's record promises.
--
-- Libraries. The document database's collection (Mongo/Driver) and client (Mongo/Transaction), the
-- SQL session (Sql/Session), the broker's retry (Worker/Tasks) and the parsers of files
-- (Application/Loaders) are parameters: records of operations that may raise, with their documented
-- effects as laws, which the files of Tests fill with concrete functions.
--
-- Numbers. Counts are natural numbers. An integer of a raw row is of Prelude/Int, as the language
-- has no bound on integers. Floats are the instance argument Python.Runtime: which operation is
-- called on what is the program's and is modelled, the arithmetic is not. A datetime is its number
-- of milliseconds since datetime.min, as the document database keeps it: what it has below a
-- millisecond is left out. What an SQL column keeps of a time or a float is a parameter of
-- Sql/Mappers/RoundTrip.
--
-- Loops. The loops over messages, stages and rows are structural. The loops over chunks have fuel: one
-- round for each row and one more, which a chunk size above 0 never uses up.
--
-- Not modelled: log lines; connections and the creation of tables and indexes (database.py, the
-- clients of MongoDB and Redis), the dispatcher and the generator of ids, the start of the
-- application, and the rest of the wiring, which are input and output; the routing of requests and
-- the reading of a query string by types, which are the framework's; the notebooks. Of what is
-- modelled, these are left out: that the repositories hand the session of the context to each call
-- of the driver (the collection of Mongo/Driver has no sessions; that a body does so is a condition
-- of the theorem on transactions); the columns created_at that the server fills and nothing reads;
-- the time in the body of an error; and the text that the framework puts around the message of a
-- request's own check. A set of ids is a list without duplicates. A stored document of a shape that
-- the program never writes is a TypeError when it is read. An iterator of rows is taken as the list
-- of what it yields, an exception being one of the things that it can yield.
pub mod Prelude
pub mod Result
pub mod Effects
pub mod Python
pub mod Domain
pub mod Application
pub mod Mongo
pub mod Rest
pub mod Sql
pub mod Worker
pub mod Tests

-- ===== src/Lib.antt =====
-- The core of an OpenID Connect server: its entities, use cases, cache and stores, in the auth
-- module (modules/auth) and the shared packages around it.
--
-- A use case is a function from an environment and a world to a result and a world (World/Monad).
-- The environment (Env) holds what the program calls and does not implement: the clock, random
-- texts, hashes, bcrypt, the JWT library, URL parsing, the configuration, and which call of a store
-- fails. Readings of the clock and of the random source are numbered, so two readings may differ.
-- The world (World) holds the tables of users, refresh tokens and grants, the cache, the mails sent
-- and the counters. What was written before an error stays written, as in the program.
--
-- Entity: modules/auth/domain/entity, a file each. Errors: core/error/error.go and
-- modules/auth/errors, with the registry of codes in Errors/Registry. Define and Service: the
-- packages define and service of modules/auth/application; Service/Jwt is the part of
-- infrastructure/jwt/jwt_service.go around the JWT library. Command and Query: the use cases of
-- modules/auth/application, a file each, whose `execute` is the Go method Execute. Middleware:
-- handler/web/middleware/auth.go and rate_limit.go, and modules/auth/adapter/in/
-- revocation_checker.go. World/Cache: infrastructure/cache/memory.go. World/Stores: the
-- repositories of modules/auth/adapter/out on tables of rows, config_client_registry.go, and
-- core/uow/unit_of_work.go. A file below another proves what holds of it. World/Rules has the
-- rules for computations that keep an invariant or cannot fail, World/Rules/Frame what leaves the
-- cache alone, World/Stores/Rows the laws of tables, and Tests the theorems at concrete inputs.
--
-- FileRepo: infrastructure/repository/file, the store under the repositories. FileRepo/Field has
-- field.go, FileRepo/WriteFile the write of a file, one system call after another, so that a crash
-- is a run of fewer calls; FileRepo/Keyed and FileRepo/Indexes what an index is, FileRepo/Reach what
-- keeps it, FileRepo/Refine and FileRepo/Tables what a lookup and a write amount to,
-- FileRepo/Reopened what a repository is that is opened on a file, and
-- FileRepo/Durable what the file holds. A repository is given its conversions, reflection on its
-- items and the JSON codec (`Model`). Documents: core/crypto/cipher.go, and the documents of
-- modules/auth/adapter/out.
--
-- Web: from a request to an answer. A gin context is a record, a handler a function on it, and a
-- chain of handlers a list that an abort ends. Web/Responder: handler/web/responder. Web/Dispatcher:
-- core/usecase/dispatcher.go. Web/Handler: handler/web/handler.go. Web/AppError: the interfaces of
-- errors, and MapHTTPError of modules/auth/module.go. Web/Headers, Web/GrantType and Web/Identity:
-- handler/web/middleware. Web/Router: modules/auth/adapter/in/router.go. A use case is given there
-- by what it answers.
--
-- Smtp: infrastructure/smtp/client.go, with the relay and net/smtp as a parameter that may answer
-- each call by the calls before it. Smtp/Message has the messages of email_sender.go, Smtp/Once and
-- Smtp/Reconnect what Send does at any relay and at one that comes back, Smtp/Delivered what the
-- relay has accepted. Config: cmd/auth/config/config.go, with the parsers in Config/Parse and Load
-- in Config/Settings.
--
-- A Go pointer that may be nil is an Option, an int that a client gives is an integer, and a
-- counter is a 64-bit word with its wrap-around. Loops are recursion on lists, without fuel, but for
-- the loop over the numbered clients of the configuration, which needs a round more than there
-- are clients; the write of a file is run for six calls, which are all that it makes.
-- `healthy` is an environment where no store fails and a cache is configured. A store's call that
-- fails has no effect, and a value in the cache is read back as it was stored. The unit of
-- work is the one of the file store, which undoes nothing.
--
-- Not modelled: requests that run at the same time; the pointers that the file store shares with
-- its callers, whose rows are copies here; the janitor of the cache; the Redis and Mongo clients,
-- with Mongo's transactions; the binding of a request to a command, which is reflection on struct
-- tags, and CORS; logging; discovery and key sets, which are constants of the configuration;
-- start-up and wiring.
pub mod Common
pub mod Env
pub mod Errors
pub mod FileRepo
pub mod Documents
pub mod Web
pub mod Entity
pub mod World
pub mod Define
pub mod Service
pub mod Smtp
pub mod Config
pub mod Command
pub mod Query
pub mod Middleware
pub mod Tests

-- ===== src/Lib.antt =====
-- Realynk, the server of a chat application: a model of its services and of its in-memory state, with
-- theorems about them.
--
-- The program is a Flask application over PostgreSQL. A request passes a route (app/routes), which
-- calls a service (app/services); the service asks the repositories (app/repositories) for rows, the
-- rules (app/permissions) for permission, writes to the session, and commits. Two managers in memory
-- (app/presence) keep the open sockets and the typing indicators.
--
-- How the files correspond to the program:
--   Base                 lists as tables, Python dicts and strings, Boolean tests
--   Models               app/models: one record for a table, and `Db`, all tables together
--   Session              a service call as an action on `Db` with a result or an exception; `commit`;
--                        Session/Ends has one rule for each way in which a block goes on
--   Constraints          the constraints that app/models declares
--   Permissions          app/permissions: a function for each rule, of the rule's name
--   Repositories         app/repositories: the look-ups, as searches of a table
--   Channels             app/services/channel_service.py and membership_service.py, with the handlers
--                        of app/routes/channels.py in Channels/Routes
--   Moderation           app/services/moderation_service.py
--   Conversations        app/services/conversation_service.py
--   Messages             app/services/message_service.py: access, edits, deletions and history;
--                        Messages/Sending has `create_message`
--   Reads                app/services/read_service.py and app/repositories/read_repository.py;
--                        Reads/Many has `mark_many`
--   Reactions            app/services/reaction_service.py: access and removal; Reactions/Adding has
--                        `add_reaction`, `list_reactions` and `aggregate` of the repository
--   Notifications        app/services/notification_service.py and notification_preference_service.py;
--                        Notifications/Delivery has the bulk creation and what messages and reactions
--                        cause, Notifications/Paging the list of app/routes/notifications.py
--   Presence             app/presence/manager.py and typing_manager.py; Presence/Visibility has
--                        app/repositories/presence_repository.py, and Presence/Service
--                        app/services/presence_service.py
--   RateLimits           app/security/rate_limiter.py, with the buckets of
--                        app/repositories/security_repository.py
--   Users                app/services/user_service.py and auth_service.py, with the queries of
--                        app/repositories/user_repository.py
--   Auth                 app/auth/jwt.py and decorators.py
--   Attachments          app/services/attachment_service.py and app/repositories/
--                        attachment_repository.py; Attachments/Filenames and Attachments/Validator have
--                        app/validators/attachment_validator.py
--   Config               app/config.py: Config/Parsing the parsers, Config/Parts and Config/Loading the
--                        parts of `from_environment` in their order, Config/Settings `flask_settings`
--   Schemas              app/schemas: the validators of request bodies
--   Sockets              app/sockets/connection.py, presence.py, channels.py and conversations.py, with
--                        app/services/typing_service.py
--   Tests                test data, and the theorems at work
--
-- Conventions. A UUID is a number, a time is a number of seconds; the ids and times that a call draws
-- from `uuid4` and the clock are its arguments. PostgreSQL is the parameter `Engine`, which accepts or
-- rejects each commit; what a theorem relies on is a hypothesis: `Enforces`, that it accepts no state
-- that breaks a declared constraint, and `RestoresOn`, that a rollback leads back to the state before
-- the call. Constraints/Checked has an engine for which both hold. A call with two transactions takes
-- an engine for each. The step of a manager that holds its lock is one step of the model. A row that
-- waits in the session is tested at the commit, not at the flush before a query.
--
-- Further parameters stand for code that is not in the repository: `Jwt` for PyJWT, `Uuids` for the
-- text form of a UUID, two functions for werkzeug's password hashes, `Storage` for the object store,
-- `Hash` for hashlib's SHA-256, `Platform` for the regular expression's class of word characters and
-- the guess of a type, `Url` for the parts that `urlparse` finds, and `lower` and `upper` for the case
-- of letters. Where a theorem relies on their documented behaviour, it is a named hypothesis, and
-- Tests/Platforms has functions for which it holds.
--
-- Every function is structural recursion, but for the loop of Attachments/Validator that reads a
-- stream in chunks: it runs on fuel, one round for each byte and one more, and that is enough, since
-- a round that does not end the loop takes a byte.
--
-- Not modelled: JSON serialization and the reading of requests (glue), the routes other than those
-- of channels and the list of notifications, which pass on to the services, the Socket.IO handlers
-- of messages, reactions, reads and notifications, which do the same, logging and metrics (I/O),
-- the storage client (calls of an external service), and, so far, abuse detection and the security
-- events.
pub mod Base
pub mod Models
pub mod Session
pub mod Permissions
pub mod Repositories
pub mod Channels
pub mod Constraints
pub mod Presence
pub mod Tests
pub mod Moderation
pub mod Conversations
pub mod Messages
pub mod Reads
pub mod Reactions
pub mod Notifications
pub mod RateLimits
pub mod Users
pub mod Auth
pub mod Attachments
pub mod Config
pub mod Sockets
pub mod Schemas

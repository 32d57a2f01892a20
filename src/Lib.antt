-- ===== src/Lib.antt =====
-- A model of the booking core and of the accounts of the Pikol backend, with the theorems that make it correct.
--
-- The program. Customers hold court-hours, pay for them through a payment provider, and lose them
-- when the hold lapses; staff book walk-ins, close courts, take cash and record outcomes. All of it
-- writes the tables `booking_groups` and `booking_slots` through one repository, and a partial unique
-- index on (court, hour) decides who gets an hour. A payment arrives as a webhook or a refresh, is
-- fetched from the provider, recorded once, and applied to its checkout: confirmed, released, taken
-- late, or undone. Accounts sign in with rotating refresh tokens and are mailed single-use links;
-- what staff may do at a venue is the union of the codes of their groups there, which the venue's own
-- managers edit.
--
-- The files. Each names the Python module that it models:
--   Common      names and lemmas that the others share
--   Time        src/utils/time.py, and `datetime`, `timedelta` as the code uses them
--   Errors      src/utils/errors.py, src/bookings/http_errors.py, src/bookings/domain/errors.py
--   Catalog     the rows that bookings only read (courts, venues, price rules, parameters), and
--               src/auth/scope.py
--   Database    the tables, src/database/session.py with its savepoints, commits and roll-backs, and
--               the operations of an action; Database.Keeps has the rules by which actions keep a
--               property of the tables, Database.Runs and Database.Ends those for the runs that return
--   Events      src/action_events/service.py (`record`) and the insert of its repository
--   Pricing     src/pricing: Domain (domain/pricing.py), Repository (persistence) and Service (service.py)
--   Bookings    src/bookings: Rules (domain/rules.py), Models and Repository (persistence), Service and
--               Closures (service.py), Availability (the reads that answer which hours are taken);
--               Bookings.Integrity is what the two tables promise
--   Checkouts   src/checkouts: Rules, Models, Repository, Service
--   Payments    src/payments: Port (domain/port.py), Models, Repository, and payments/service.py in two
--               files, Apply for `_apply` with what it calls, and Service for the rest
--   Users       src/users: Domain and Models, GroupRepository and Repository (persistence), Changes (the
--               bodies that change an account), GroupService (group_service.py) and Service (service.py)
--   Venues      src/venues/service.py and src/courts/service.py
--   Auth        src/auth: Models, Security (security.py, over the parameter Crypto), Access (access.py
--               and dependencies.py) and Service (service.py)
--   Parameters  src/parameters: the cache (service.py) and the change of a parameter (admin.py)
--   Program     the requests that write bookings, served one after another, and the tables they reach;
--               Program.Endpoints has the operations of the admin controllers, and Program.Staff
--               the permission that each endpoint asks for
--   Examples    the theorems applied to small tables
--
-- How code corresponds to definitions. A method that takes a session is an `Action`: it maps a session
-- (the tables as the transaction sees them, and as last committed) to a result and a session. A
-- raised exception is an `err`; `async with session.begin_nested()` is `savepoint`, `try ... except`
-- around it is `attempt` with a function on the result, `session.commit()` is `commit`, and `request`
-- rolls back what is not committed. Functions keep the names of the source; where a function is
-- divided, the parts are named for what they do. A `select` is `gets`, an `update` is `modify`.
--
-- The database's part. The partial unique index, the unique constraints on reference codes, payment
-- attempts, sessions, refunds, webhook events, emails, group names, tokens and
-- price rules, NOT NULL, and the checks on whole hours and on the ranges of a price rule are
-- modelled where rows are written. Row locks are not: requests are served one after another, each as
-- a whole, and what the locks order is taken as ordered.
--
-- Numbers. Instants count microseconds from 0001-01-01T00:00Z, so they are natural numbers; a UTC
-- offset is kept with 24 hours added. Centavos are natural numbers. A percentage is a numerator over a
-- power of ten, exact as `Decimal` is for these sizes. Manila is at a fixed offset of 8 hours.
--
-- The business rules. An operation reads the parameters of the tables as they are; the cache, by which
-- another process may lag by up to 30 seconds, is modelled apart, in Parameters.
--
-- Bounds and fuel. A reference code is tried 5 times, as in the source, and then a RuntimeError is
-- raised; the codes are a stream that the theorems leave arbitrary. Loops over rows below the next
-- primary key are structural, and the next key is above all keys (`fresh` in the invariant). Nothing else repeats.
--
-- Clocks. A request has one clock reading; where the source reads the clock again within a request
-- (the time of some events, the refund's day), that reading is the same one here.
--
-- Parameters. The payment provider, password hashing, SHA-256, JWT, Pydantic's validation and the database's LOWER are
-- arguments of what uses them; theorems hold for any.
--
-- Left out: reads that change nothing (lists, timelines, summaries; the grid of a day and the
-- strip of the console are in), texts of
-- errors and emails, JSON payloads, `created_at` and `updated_at`, rate limits, and the adapters of
-- the payment provider. The requests of Program are those on bookings; the operations on accounts are
-- modelled, and reached through Program.Staff, but not yet among
-- those, so an edit of the accounts is any edit there.
pub mod Common
pub mod Time
pub mod Users
pub mod Venues
pub mod Auth
pub mod Errors
pub mod Catalog
pub mod Events
pub mod Database
pub mod Pricing
pub mod Bookings
pub mod Checkouts
pub mod Parameters
pub mod Payments
pub mod Program
pub mod Examples

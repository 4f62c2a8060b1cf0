-- ===== src/Lib.antt =====
-- Verification of the multi-tenant project-management service: an API (apps/api), a web client
-- (apps/web) and the packages that they share (packages/types, packages/db).
--
-- A request passes the guards, reaches a controller and calls a service. The services keep their
-- state in the database, write an audit trail, hand jobs to a queue, and tell the clients of a board
-- what changed; each client patches its cache.
--
-- Rank       packages/types/src/rank.ts: rankBetween and firstRank on strings of code units
-- Rbac       packages/types/src/rbac.ts: the permission matrix
-- Prisma     the database client as an interface of tables and laws; Memory meets it with lists
-- Model      rows, the state `World` of all tables and of what leaves the service, and the actions
--            that handlers are made of, which return a value or throw
-- Auth       apps/api/src/modules/auth: Tokens is token.service.ts; Accounts, Registration and Slugs
--            are auth.service.ts; Cookies is auth.controller.ts; Interleaved is a rotation call by call
-- Guards     apps/api/src/common/guards and decorators; Routes has the metadata of the controllers
-- Services   Audit, Notifications, Orgs, Issues, Projects, Attachments, Billing: the services of the
--            same names under apps/api/src/modules and apps/api/src/common/audit; Issues.Listing
--            is the filtered list with its pages
-- Realtime   apps/api/src/modules/realtime/realtime.gateway.ts: rooms and presence of one node;
--            Clients has the handshake and the steps of several sockets in any order
-- Api        the requests of all controllers and the jobs of the queue, served one after another, and
--            what holds of the tables in between; Live is an open board that the events of its room
--            reach meanwhile
-- Web        Cache: apps/web/lib/use-board-realtime.ts and hooks.ts; Client: apps/web/lib/api.ts and
--            auth-store.ts; Flight: the refresh that requests of a tab share, against the server;
--            Observer: the presence list of use-board-realtime.ts, against the gateway;
--            Upload: the upload of a file, with its routes; Drag: apps/web/components/board.tsx
-- Seed       packages/db/prisma/seed.ts: the demo data
-- Schemas    packages/types/src/schemas.ts: tests on inputs, with the formats that zod checks as a
--            parameter, and the pipe of apps/api/src/common/pipes that applies them
-- Errors     apps/api/src/common/observability/sentry.filter.ts: the reply to an exception
-- Tests      the theorems at a small tenant
--
-- Operations keep their names, in snake case. A method that awaits its calls one after the other is a
-- do block over `Action`; `transaction` takes writes back on a throw, and elsewhere they stay. What
-- the platform supplies to a call (clock, fresh identifiers, a random secret) is the record `Call`,
-- and the packages that the code calls (crypto, bcryptjs, JWT) are fields of `External`. Identifiers,
-- addresses and hashes are only compared, so they are numbers; ranks, slugs, titles and object keys
-- are lists of code units.
--
-- The loop of rankBetween runs on fuel, the length of the longer bound and one more: each round
-- reads one more character of both bounds, and the first round behind both ends returns. The
-- search for a free slug runs on a round more than there are organizations, since the candidates
-- are all different; a decimal numeral on as many rounds as its number, since a division by ten
-- makes it smaller, and a base-36 numeral of the demo data in the same way. The pages of a list
-- are followed on fuel in the theorem alone. All other functions are structural.
--
-- Not modelled: calls that interleave within one operation, but for two rotations of one token and
-- a join that outlives its socket; an answer to a refresh that is lost on its way to the tab, and
-- tabs that share a cookie; the times of creation and update of rows; the text of mails; the S3 and Stripe clients; and the
-- rendering of pages.
pub mod Base
pub mod Rank
pub mod Rbac
pub mod Prisma
pub mod Model
pub mod Auth
pub mod Guards
pub mod Realtime
pub mod Services
pub mod Schemas
pub mod Errors
pub mod Web
pub mod Tests
pub mod Api
pub mod Seed

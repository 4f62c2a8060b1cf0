-- ===== src/Model.antt =====
-- What the services share: the rows of the database, the state of the running service, and the
-- actions that a request handler is made of. A string that the program only stores, compares or
-- passes on (identifiers, e-mail addresses, hashes, project keys) stands as a number.
pub mod Data
pub mod World
pub mod Action
pub mod Platform
pub mod Binds

-- ===== src/Client.antt =====
-- controllers/logicalnetwork-pkg: the client, the informers and the listers of logical networks,
-- over client-go.
pub mod Library
pub mod Requests
pub mod Factory
pub mod Lister
pub mod Informers
pub mod Memory
mod Tests
pub mod Copies

-- ===== src/Env.antt =====
-- What the program calls and does not implement: Redis, Cassandra, the network between, the
-- clock, randomness and the cryptographic libraries. Each is a parameter, with the documented
-- behaviour that the code relies on as a record of laws.
pub mod Redis
pub mod Table
pub mod Services
pub mod Memory

-- ===== src/LogParser.antt =====
-- hw12: the log parser. A bounded buffer of tasks, a pool of threads that takes them out, and a hash
-- table in which the tasks count.
pub mod Apache
pub mod CirBuffer
pub mod HashTable
pub mod Main
pub mod ThreadPool

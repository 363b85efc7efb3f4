-- ===== src/Util.antt =====
-- The threads, queues and containers of src/LSST/util.
pub mod EventThread
pub mod ThreadPool
pub mod CsvFile
pub mod NamedValue
pub mod Examples

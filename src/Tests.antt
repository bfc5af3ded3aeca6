-- ===== src/Tests.antt =====
-- Concrete runs, and an instance of each property at an input that meets its hypotheses.
mod Whole
mod Indexes
mod Graph
mod Stores
mod Caches
mod Engines
mod Batches
mod Files
mod Restarts
mod Servers
mod Replicas

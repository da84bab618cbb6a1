-- ===== src/Services/Vector.antt =====
-- `VectorService` of xvector/services/vector.py: the rows that the partitions of a collection
-- return, and how they are put together.
pub mod Ranking
pub mod Fusion
pub mod Documents
pub mod Entities

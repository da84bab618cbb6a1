-- ===== src/Meta.antt =====
-- The documents and the store of xvector/meta/, one file of it to a module.
pub mod DocId
pub mod Store
pub mod Catalog

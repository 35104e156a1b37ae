-- ===== src/Ensemble.antt =====
-- The part lists of ensembles of generic/itclEnsemble.c: sorted arrays of named parts with the number
-- of characters that an abbreviation needs.
pub mod Names
pub mod Search
pub mod Parts
pub mod Invariant
pub mod Meaning
pub mod Abbreviations
pub mod Arrays
pub mod MinChars
pub mod Insert
pub mod Far
pub mod Recompute
pub mod Create
pub mod Delete

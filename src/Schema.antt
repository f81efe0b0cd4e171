-- ===== src/Schema.antt =====
-- internal/schema/schema.go: the keys, the field names, the records and their hash forms. Their
-- proofs are in the child modules.
pub mod Keys
pub mod Fields
pub mod Codec
pub mod KeyLaws
pub mod RoundTrip
pub mod Avoids

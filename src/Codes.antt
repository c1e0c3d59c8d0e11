-- ===== src/Codes.antt =====
-- The codes of packages/contracts/src: barcodes (barcodes.ts, code128.ts), GSTINs and documents (gst.ts).
-- A text is the list of its characters' code points, and is ASCII.
pub mod Weighted
pub mod Ean
pub mod Gstin
pub mod Code128
pub mod Documents

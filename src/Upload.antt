-- ===== src/Upload.antt =====
-- The uploads of reapi/cas.go: blobs are put into requests that the server's limits allow.
pub mod Batches
pub mod Separate
mod Bundles
mod Sorting
mod Sending
mod Samples

-- ===== src/S3.antt =====
-- pkg/s3store/s3store.go and s3store_part_producer.go: uploads as S3 multipart uploads.
pub mod PartSize
pub mod Keys
pub mod Service
pub mod Producer
pub mod Upload
pub mod Write
pub mod Finish
pub mod Finished
pub mod Listing
pub mod Resumed
pub mod Handle
pub mod Composer
pub mod Serve
pub mod Laws

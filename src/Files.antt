-- ===== src/Files.antt =====
-- tools/filesystem: the seven file tools, over a disk that holds the files.
pub mod Disk
pub mod Os
pub mod Read
pub mod Write
pub mod Search
pub mod Tools
pub mod Kept
pub mod Unattended
pub mod Results
pub mod Tests

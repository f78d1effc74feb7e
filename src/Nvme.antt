-- ===== src/Nvme.antt =====
-- mylib/nvme.cc: the addresses and identifiers of requests, the queue pair, and the polling of its
-- completion queue.
pub mod Address
pub mod Qp
pub mod Poll
pub mod Window
pub mod Device
pub mod Lists
pub mod Polled
pub mod Consistent
pub mod Requests
pub mod Delivery
pub mod Setup
pub mod Admin
pub mod Created
pub mod Drives
mod Examples
mod DeliveryExamples
mod SetupExamples

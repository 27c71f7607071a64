-- ===== src/Delivery.antt =====
-- Delivery of answers to outside channels: app/mneme/channels/delivery.py, the deliveries of
-- app/mneme/crud/channel.py, and the adapter of Feishu.
pub mod Rows
pub mod Worker
pub mod Feishu
pub mod Access
pub mod Resume
pub mod Tracked
pub mod Queue
pub mod Parts
pub mod Acknowledged
pub mod Batch
pub mod Histories
mod Samples

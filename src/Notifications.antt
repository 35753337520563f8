-- ===== src/Notifications.antt =====
-- app/notifications/: the notices for the staff.
pub mod Staff
pub mod Queue

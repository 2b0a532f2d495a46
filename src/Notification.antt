-- ===== src/Notification.antt =====
-- How a confirmation comes from the subscription-api to the notification service: over gRPC
-- (Grpc), or over HTTP (Web); and the mails that the notification service writes (Email).
pub mod Grpc
pub mod Web
pub mod Email
pub mod Delivered
pub mod Mailed

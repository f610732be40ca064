-- ===== src/Redissub.antt =====
-- Package redissub: consuming a Redis stream.
pub mod Subscriber
pub mod MultiSubscriber

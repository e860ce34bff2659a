-- ===== src/Queue.antt =====
-- The persistent queues: main/middleware/persistent_queue_mirror.hpp, message_bus.hpp,
-- message_bus.cpp, publish_api.hpp and publish_api.cpp.
pub mod Ram
pub mod Records
pub mod Disk
pub mod Mirror
pub mod Bus
mod Tests

-- ===== src/Worker.antt =====
-- internal/worker: the dispatcher, the poller and the drainer, each by one round of its loop.
pub mod Poller
pub mod Dispatcher
pub mod Drainer

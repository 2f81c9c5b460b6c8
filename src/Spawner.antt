-- ===== src/Spawner.antt =====
-- src/spawner.c: the first process of the namespace, which starts the task and reports how it ended.
pub mod Channels
pub mod Report
pub mod Task
pub mod Steps
pub mod Run
pub mod Wait
pub mod Given
pub mod Slots
pub mod Stages
pub mod Order
pub mod Texts

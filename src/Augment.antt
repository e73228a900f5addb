-- ===== src/Augment.antt =====
-- memori/memory/augmentation: how what was said is sent to the augmentation service, and what is
-- written of its answer.
pub mod Select
pub mod Process
pub mod Manager
pub mod Cloud

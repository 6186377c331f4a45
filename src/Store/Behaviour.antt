-- ===== src/Store/Behaviour.antt =====
-- What the operations of the store do, call by call.
pub mod Outcomes
pub mod PolicyLaws
pub mod QueueLaws
pub mod DeliveryLaws
pub mod PushLaws
pub mod DuplicateLaws
pub mod CodeLaws
pub mod CodeSearch
pub mod RequestLaws
pub mod Notices
pub mod JoinLaws

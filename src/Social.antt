-- ===== src/Social.antt =====
-- shared/socialgraph and services/social: who follows whom.
pub mod Graph
pub mod Follow
pub mod Order
pub mod Valid
pub mod Paging

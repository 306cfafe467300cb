-- ===== src/Instagram.antt =====
-- The pure rules of packages/domain/src/instagram-*.ts.
pub mod Scheduling
pub mod Catalogue
pub mod Insights
pub mod Media
pub mod Token

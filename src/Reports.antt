-- ===== src/Reports.antt =====
-- Reports for clients and operators (src/reports/).
pub mod Service
pub mod Trail

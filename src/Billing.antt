-- ===== src/Billing.antt =====
-- What the gateway says of a response's cost: receipts (backend/internal/receipt) and prices
-- (backend/internal/cost).
pub mod Receipt
pub mod Prices
pub mod Catalog

-- ===== src/Pricing.antt =====
-- Prices: src/services/pricingEngine.ts, src/utils/pricing.ts and src/utils/allocation.ts.
pub mod Fraction
pub mod Rounding
pub mod Percentage
pub mod Engine
pub mod Effective
pub mod Allocation

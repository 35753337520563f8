-- ===== src/Payment.antt =====
-- app/payment/: the assisted review of a receipt, which only suggests.
pub mod Receipt

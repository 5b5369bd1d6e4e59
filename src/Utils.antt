-- ===== src/Utils.antt =====
-- core/utils.py: the helpers that the other parts share.
pub mod Numbers
pub mod Decimal
pub mod Ip
pub mod Protocol
pub mod Dedup
pub mod Flag
pub mod Quote
pub mod Codec
pub mod Host
pub mod Limiter

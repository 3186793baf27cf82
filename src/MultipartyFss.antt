-- ===== src/MultipartyFss.antt =====
-- multiparty_fss: function secret sharing of a point function among p parties, on a grid of
-- `nu` rows and `mu` columns.
pub mod Params
pub mod Parity
pub mod Arrays
pub mod KeyShare
pub mod Keygen
pub mod Evaluate
pub mod Shares
pub mod Correct

-- ===== src/Tests.antt =====
-- Concrete runs of the model, and each theorem that has hypotheses at an input that meets them.
mod Sharing
mod Config
mod Packed
mod Pages
mod XorPir
mod CompactDirectory
mod EvidenceHandles
mod OramEpoch
mod VolumeHiding
mod MultipartyFss
mod TypeBlocks
mod Oram
mod Reference

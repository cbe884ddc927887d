-- ===== src/Tests.antt =====
-- Runs of the models on concrete inputs, and the theorems at inputs that meet their hypotheses.
mod HistoryTests
mod ServerTests
mod ProtocolTests
mod ClipboardTests
mod TransportTests
mod AppTests
mod SignalingTests
mod ArchiveTests
mod CryptoTests
mod RequestTests
mod TransferTests
mod AccountTests

-- ===== src/Tests.antt =====
-- Runs of the program's functions on concrete inputs, and the theorems applied at them.
mod ProtoTests
mod CryptoTests
mod BackedTests
mod SessionTests
mod ConnectionTests
mod HostTests
mod SshTests
mod LinkTests
mod TerminalTests
mod MainTests
mod ClientTests

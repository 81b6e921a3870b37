-- ===== src/Kraken.antt =====
-- include/kraken.h: the constants and the shared structures.
pub mod Config
pub mod Regs
pub mod CoreState
pub mod Stage
pub mod Cmd
pub mod UsbState
pub mod SysFlag
pub mod FaultSource
pub mod PlatCap
pub mod PlatErr
pub mod TraceCode
pub mod PersistKind
pub mod ReleaseStatus
pub mod ImageKind
pub mod Options
pub mod Structs

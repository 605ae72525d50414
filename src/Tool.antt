-- ===== src/Tool.antt =====
-- arrower/: the command line tool, which watches the files of a project and generates code.
pub mod Files
pub mod Watch
pub mod Bursts
pub mod Build
pub mod Cycle
pub mod Apps
pub mod Generate
pub mod Naming

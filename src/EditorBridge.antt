-- ===== src/EditorBridge.antt =====
-- src/kayak/editor_bridge: the bridge from endorsed editor proposals to pull requests.
pub mod Json
pub mod Patch
pub mod Worker

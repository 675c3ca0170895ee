-- ===== src/Host.antt =====
-- What the node plugin asks of its surroundings, and its state. The kernel, the mount service, the
-- filer and the Kubernetes API are a parameter: `Host` answers each call from the history of all
-- calls before it, so a theorem for every host holds however the mounts change in between.
mod Calls
mod State
pub mod Quiet
pub mod Conserves
unfoldable pub use Calls.{wrap_both}
pub use Calls.*
unfoldable pub use State.{
  ask, act, note, now, read_attributes, read_capacity, read_device, read_publish_paths, list_mounts,
  get_volume, store_volume, delete_volume,
}
pub use State.{Volume, RecoveryBackoffState, NodeServer, Node, put_log}

-- ===== src/Installer/Binaries.antt =====
-- internal/installer/binaries.go: the copy of the plugin's binary.
pub mod Copy
use gopher_cni.Actions.{◌>>◌}
use gopher_cni.Go.Path.{base, join}
use gopher_cni.Go.Text.{Text}
use gopher_cni.Installer.Os.{
  Io, Os, ask, change_mode, copy_contents, create_file, mkdir_all, open_source, sync,
}
use gopher_cni.Prelude.{[], ◌∷◌}

module _ (os : Os) where
  -- copyFile; closing the files has no effect.
  unfoldable pub copy_file : Text → Text → Io (Unit {0})
  copy_file src dst = do
    open_source os src
    create_file os dst
    copy_contents os src dst
    ask os (sync dst)
    change_mode os dst 493

  -- copyPluginBinary
  unfoldable pub copy_plugin_binary : Text → Text → Io (Unit {0})
  copy_plugin_binary src_file_path dst_dir = do
    ask os (mkdir_all dst_dir)
    copy_file src_file_path (join (dst_dir ∷ base src_file_path ∷ []))

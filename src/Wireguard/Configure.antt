-- ===== src/Wireguard/Configure.antt =====
-- internal/wireguard/configure.go: ConfigureWireguard, which the commands do not call.
use gopher_cni.Go.Text.{Text}
use gopher_cni.Plugin.Kernel.{Kernel, Net, call, configure_device, new_wg_client, ◌>>◌}
use gopher_cni.Wireguard.{Config}

module _ (k : Kernel) where
  -- ConfigureWireguard; closing the client has no effect.
  unfoldable pub configure_wireguard : Text → Config → Net (Unit {0})
  configure_wireguard link_name cfg = do
    call k new_wg_client
    call k (configure_device link_name cfg.wg)

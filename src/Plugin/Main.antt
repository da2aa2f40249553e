-- ===== src/Plugin/Main.antt =====
-- plugin/plugin.go: what the plugin's main hands to the CNI library, which calls one of the four
-- commands and is a parameter.
use gopher_cni.Go.Text.{Text, codes}
use gopher_cni.Plugin.Commands.{AddError, CmdArgs, ConfError, Host, add, check, del, status}
use gopher_cni.Plugin.Kernel.{Kernel, Trace}
use gopher_cni.Wireguard.Parser.{Decoders}
use gopher_cni.Prelude.{List, Result, [], ◌++◌, ◌∷◌}

-- skel.CNIFuncs
pub record CniFuncs : Type 0 where
  pub add : CmdArgs → Trace → Result AddError Text × Trace
  pub del : CmdArgs → Result ConfError (Unit {0})
  pub check : CmdArgs → Result ConfError (Unit {0})
  pub status : CmdArgs → Result ConfError (Unit {0})

-- the versions of the CNI specification that it says it supports
unfoldable pub supported_versions : List Text
supported_versions =
    codes "0.1.0"
    ∷ codes "0.2.0"
    ∷ codes "0.3.0"
    ∷ codes "0.3.1"
    ∷ codes "0.4.0"
    ∷ codes "1.0.0"
    ∷ codes "1.1.0"
    ∷ []

-- main, with skel.PluginMainFuncs and the version that the build sets
unfoldable pub main :
    {R : Type 0} → (CniFuncs → List Text → Text → R) → Kernel → Host → Decoders → Text → R
unfolding supported_versions
main plugin_main_funcs k h d version =
    let funcs : CniFuncs = record {
      add = add k h d;
      del = del h;
      check = check h;
      status = status h;
    } in
    plugin_main_funcs funcs supported_versions (codes "Gopher CNI plugin " ++ version)

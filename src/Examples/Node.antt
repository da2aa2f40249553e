-- ===== src/Examples/Node.antt =====
-- The files of a node that Install and Uninstall are run on.
use gopher_cni.Examples.Installing.{
  calm, calm-IsReliable, entry, entry-is_ours, entry_inserted, flannel, flannel_only,
  installed_list, node_config, node_list, node_list-IsWf,
}
use gopher_cni.Go.Base64.{encode_base64}
use gopher_cni.Go.Json.{append_item, Json, array, cons, get_field, nil}
use gopher_cni.Go.Order.{sort, text_leb}
use gopher_cni.Go.Path.{base, join}
use gopher_cni.Go.Text.{
  split, starts_with_code, is_empty, split, Text, codes, is_empty, starts_with_code, text_eq,
}
use gopher_cni.Installer.CniConfig.{plugins_key}
use gopher_cni.Installer.CniFile.{
  JsonCodec, Libcni, await_network, checked_list, ends_with, get_default_cni_network,
  conflist_suffix,
}
use gopher_cni.Installer.CniFile.Network.{
  await_network-returns, get_default_cni_network-least, IsVerdict, IsFirst, IsIdle, slept,
}
use gopher_cni.Installer.Install.{Progress, install}
use gopher_cni.Installer.Install.Removal.{install-leaves}
use gopher_cni.Installer.Install.Restore.{IsCarried}
use gopher_cni.Installer.Install.Whole.{install-restores, net_dir, IsSameBeside}
use gopher_cni.Installer.Kubeconfig.{
  ca_data_key, create_kubeconfig_file, fill_template, kubeconfig_path, InstallError,
}
use gopher_cni.Installer.Kubeconfig.Escaping.{create_kubeconfig_file-plain, is_pem, is_plain}
use gopher_cni.Installer.Os.{File, Files, put}
use gopher_cni.Prelude.{
  All, In, Option, [], arith, if◌then◌else◌, none, ok, refl, some, true, ℕ, ◌++◌, ◌∷◌, ◌≡◌, List,
  here, zero, suc, inl, Result, ◌<◌, there,
}

-- A codec that knows lists by the number of their plugins.
abbrev text_of : Option Json → Option Text
text_of (some (array (cons x nil))) = some (codes "one")
text_of (some (array (cons x (cons y nil)))) = some (codes "two")
text_of _ = none

abbrev pub small_codec : JsonCodec
small_codec = record {
  decode = λ t.
      if text_eq t (codes "one\n")
      then some node_list
      else if text_eq t (codes "two\n")
      then some installed_list
      else none;
  encode = λ m. text_of (get_field plugins_key m);
  entry_fields = λ e. some entry;
}

abbrev pub list_path : Text
list_path = codes "/host/etc/cni/net.d/10-flannel.conflist"

abbrev list_file : File
list_file = record { content = codes "one\n"; mode = 420 }

abbrev binary_file : File
binary_file = record { content = codes "ELF"; mode = 420 }

abbrev ca_file : File
ca_file = record { content = codes "CERT"; mode = 420 }

abbrev pub node_files : Files
node_files = put list_path list_file (
    put (codes "/cni/gopher-cni") binary_file (
      put (codes "/ca.crt") ca_file (
        put (codes "/var/run/secrets/kubernetes.io/serviceaccount/token")
          (record { content = codes "t0ken"; mode = 420 }) (λ path. none))))

abbrev small_libcni : Libcni
small_libcni = record {
  conf_files = λ files dir. some (codes "99-x.conf" ∷ list_path ∷ []);
  conf_list_plugins = λ files file. some 1;
}

abbrev no_change : ℕ → Files → Files
no_change i files = files

abbrev pub node_progress : Progress
node_progress = record {
  kubeconfig_filepath = codes "/host/etc/cni/net.d/kubeconfig";
  cni_config_filepath = list_path;
  failed = none;
}

install-leaves_example :
    (install calm small_codec node_config small_libcni no_change 1 (λ files. files) node_files).1
      (codes "/host/opt/cni/bin/gopher-cni")
    ≡ none
unfolding text_eq join is_empty codes starts_with_code split
install-leaves_example =
    install-leaves calm calm-IsReliable small_codec node_config small_libcni no_change 1
      (λ files. files) node_files (codes "/host/opt/cni/bin/gopher-cni") refl

pub node_list-IsCarried : IsCarried small_codec node_list
unfolding get_field text_eq codes
node_list-IsCarried = record { text = codes "one"; encoded = refl; decoded = refl }

installed_list-IsCarried : IsCarried small_codec installed_list
unfolding get_field text_eq codes append_item
installed_list-IsCarried = record { text = codes "two"; encoded = refl; decoded = refl }

get_default_cni_network-least_example :
    (t : Text) × In t (codes "99-x.conf" ∷ list_path ∷ [])
    × All (λ (u : Text). text_leb t u ≡ true) (codes "99-x.conf" ∷ list_path ∷ [])
    × IsVerdict small_libcni node_files t
        (get_default_cni_network small_libcni (codes "/d") node_files)
get_default_cni_network-least_example =
    get_default_cni_network-least small_libcni (codes "/d") (codes "99-x.conf") (list_path ∷ [])
      node_files refl

create_kubeconfig_file-plain_example :
    create_kubeconfig_file calm node_config (codes "t0ken") node_files ≡ (
      ok (kubeconfig_path calm node_config),
      put
          (kubeconfig_path calm node_config)
          (record {
            content =
                fill_template
                  (codes "https")
                  (codes "10.0.0.1")
                  (codes "443")
                  (ca_data_key ++ encode_base64 (codes "CERT"))
                  (codes "t0ken");
            mode = 384;
          })
          node_files,
    )
unfolding is_empty codes text_eq is_pem is_plain join starts_with_code split
create_kubeconfig_file-plain_example =
    create_kubeconfig_file-plain calm calm-IsReliable node_config (codes "t0ken") node_files ca_file
      refl refl refl refl refl refl refl refl refl

-- A library that lists the two files which are there, one of them before the node's list.
abbrev other_path : Text
other_path = codes "/host/etc/cni/net.d/05-other.conflist"

abbrev found_at : Option File → Text → List Text → List Text
found_at none path names = names
found_at (some f) path names = path ∷ names

abbrev listing_libcni : Libcni
listing_libcni = record {
  conf_files = λ files dir.
      some (found_at (files list_path) list_path (found_at (files other_path) other_path []));
  conf_list_plugins = λ files file. some 1;
}

node_looked :
    (fs : Files)
    → IsSameBeside calm calm-IsReliable small_codec node_config listing_libcni no_change 0
        node_files fs
    → get_default_cni_network listing_libcni (net_dir node_config) fs ≡ ok list_path
unfolding get_default_cni_network sort text_leb codes ends_with text_eq checked_list base join
    is_empty starts_with_code split
node_looked fs same =
    let there : fs list_path ≡ some list_file = same list_path refl refl in
    let no_other : fs other_path ≡ none = same other_path refl refl in rw (there, no_other) refl

install-restores_example :
    ((install calm small_codec node_config listing_libcni no_change 1 (λ files. files) node_files).0
      ≡ none)
    × (text : Text) × (small_codec.decode text ≡ some node_list)
    × ((install calm small_codec node_config listing_libcni no_change 1
            (λ files. files)
            node_files).1
          list_path
        ≡ some (record { content = text; mode = 420 }))
unfolding is_empty codes text_eq join starts_with_code split base
install-restores_example =
    install-restores calm calm-IsReliable small_codec node_config listing_libcni no_change 0
      list_path entry node_list installed_list list_file node_files refl refl node_looked refl
      entry_inserted installed_list-IsCarried ca_file
      (record { content = codes "t0ken"; mode = 420 }) refl refl refl refl (λ files. files)
      binary_file flannel refl refl refl refl refl refl refl refl refl node_list-IsWf flannel_only
      entry-is_ours node_list-IsCarried (λ fs. refl)

-- A directory that gets its list during the first sleep, where the library sees no plugins in the
-- list: an error, which ends the wait.
abbrev empty_libcni : Libcni
empty_libcni = record listing_libcni { conf_list_plugins = λ files file. some 0 }

abbrev no_files : Files
no_files path = none

abbrev list_put : ℕ → Files → Files
list_put i files = put list_path list_file files

only_list : (t : Text) → In t (list_path ∷ []) → t ≡ list_path
only_list t (here e) = e
only_list t (there h) = elim h [ ]

IsFirst-suffixed : (t : Text) → IsFirst (list_path ∷ []) t → ends_with conflist_suffix t ≡ true
unfolding ends_with text_eq codes
IsFirst-suffixed t first = rw (only_list t first.0) refl

IsIdle-before : (k : ℕ) → k < 1 → IsIdle empty_libcni (slept list_put 0 k no_files) (codes "/d")
unfolding IsIdle
IsIdle-before zero lt = inl refl
IsIdle-before (suc k) lt = absurd (omega arith)

await_network-returns_example :
    (t : Text) × (r : Result InstallError Text) × IsFirst (list_path ∷ []) t
    × IsVerdict empty_libcni (list_put 0 no_files) t r
    × (await_network empty_libcni list_put (codes "/d") 0 3 no_files ≡ (r, list_put 0 no_files))
unfolding text_eq codes
await_network-returns_example =
    await_network-returns empty_libcni list_put (codes "/d") 1 3 0 no_files list_path []
      (omega arith) IsIdle-before refl IsFirst-suffixed

-- ===== src/Installer/Binaries/Copy.antt =====
-- What the copy of the plugin's binary leaves on the node.
use gopher_cni.Go.Path.{base, join}
use gopher_cni.Go.Text.{Text, codes, text_eq, text_eq_iff}
use gopher_cni.Installer.Binaries.{copy_file, copy_plugin_binary}
use gopher_cni.Installer.Os.{File, Files, Os, kept_mode, mkdir_all, put, sync}
use gopher_cni.Installer.Os.Reliable.{
  IsReliable, ask_lem, change_mode_lem, copy_contents_lem, create_file_lem, open_source_lem,
}
use gopher_cni.Prelude.{Bool, Option, [], false, if◌then◌else◌, ok, refl, some, true, ◌∷◌, ◌≡◌}

put_put :
    (x y z w : Option File) (b : Bool)
    → (if b then x else if b then y else if b then z else w) ≡ (if b then x else w)
put_put x y z w true = refl
put_put x y z w false = refl

module _ (os : Os) (reliable : IsReliable os) where
  copy_file_lem :
      (src dst : Text) (files : Files) (f : File)
      → files src ≡ some f
      → text_eq dst src ≡ false
      → (files' : Files) × (copy_file os src dst files ≡ (ok tt, files'))
        × ((q : Text)
            → files' q ≡ (
                if text_eq dst q
                then some (record { content = f.content; mode = 493 })
                else files q))
  unfolding copy_file
  copy_file_lem src dst files f there ne =
      let self = (text_eq_iff dst dst).1 refl in
      let made : File = record { content = codes ""; mode = kept_mode os 438 (files dst) } in
      let filled : File = record made { content = f.content } in
      let opened = put dst made files in
      let copied = put dst filled opened in
      (
        put dst (record filled { mode = 493 }) copied,
        rw
            (
              open_source_lem os reliable src files f there,
              create_file_lem os reliable dst files,
              copy_contents_lem os reliable src dst opened f made (rw ne there) (rw self refl),
              ask_lem os reliable (sync dst) copied,
              change_mode_lem os reliable dst 493 copied filled (rw self refl),
            )
            refl,
        λ q. put_put _ _ _ _ (text_eq dst q),
      )

  -- On a system that refuses no call, where the binary is in the container and its place on the node
  -- is another path: afterwards the node has there a file of the binary's content that all may read
  -- and execute and its owner may write, whatever was there before, and every other file is as it
  -- was.
  pub copy_plugin_binary-copied :
      (src dir : Text) (files : Files) (f : File)
      → files src ≡ some f
      → text_eq (join (dir ∷ base src ∷ [])) src ≡ false
      → (files' : Files) × (copy_plugin_binary os src dir files ≡ (ok tt, files'))
        × ((q : Text)
            → files' q ≡ (
                if text_eq (join (dir ∷ base src ∷ [])) q
                then some (record { content = f.content; mode = 493 })
                else files q))
  unfolding copy_plugin_binary
  copy_plugin_binary-copied src dir files f there ne =
      rw (ask_lem os reliable (mkdir_all dir) files)
        (copy_file_lem src (join (dir ∷ base src ∷ [])) files f there ne)

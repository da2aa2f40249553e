-- ===== src/Udslog/Socket.antt =====
-- NewListener and StartUDSLogServer.
use gopher_cni.Actions.{Action, from, wrapping, ◌>>◌}
use gopher_cni.Go.Path.{dir}
use gopher_cni.Go.Text.{Text, codes, is_empty, text_eq, text_eq_iff}
use gopher_cni.Installer.Os.{
  File, Files, Os, OsError, ask, change_mode, drop, file_exists, listen_unix, mkdir_all,
  no_such_file, put, remove,
}
use gopher_cni.Installer.Os.Reliable.{
  IsReliable, ask_lem, change_mode_lem, file_exists_lem, listen_unix_lem, remove-none, remove_lem,
}
use gopher_cni.Prelude.{
  Bool, Option, Option-cases, Result, err, false, if◌then◌else◌, inl, inr, none, ok, refl, some,
  true, ◌≡◌,
}

pub data ListenError : Type 0 where
  remove_failed listen_failed chmod_failed : OsError → ListenError
  no_socket : Text → ListenError
  no_address : ListenError
  server_failed close_failed : Text → ListenError

module _ (os : Os) where
  -- os.Remove, whose error is passed over where there is no such file
  after_remove : Result OsError (Unit {0}) → Result ListenError (Unit {0})
  after_remove (err (no_such_file path)) = ok tt
  after_remove (err e) = err (remove_failed e)
  after_remove (ok u) = ok tt

  unfoldable pub remove_stale : Text → Action ListenError Files (Unit {0})
  unfolding after_remove
  remove_stale path files = let r = remove os path files in (after_remove r.0, r.1)

  -- os.MkdirAll, whose error is only logged
  unfoldable pub try_mkdir : Text → Action ListenError Files (Unit {0})
  try_mkdir path files = (ok tt, (ask os (mkdir_all path) files).1)

  unfoldable pub check_socket : Text → Action ListenError Files (Unit {0})
  check_socket path files =
      if file_exists os path files then (ok tt, files) else (err (no_socket path), files)

  -- NewListener
  unfoldable pub new_listener : Text → Action ListenError Files (Unit {0})
  new_listener path = do
    remove_stale path
    try_mkdir (dir path)
    wrapping listen_failed (listen_unix os path)
    check_socket path
    wrapping chmod_failed (change_mode os path 438)

  -- What the select of StartUDSLogServer is given first: the end of Serve, with http.ErrServerClosed
  -- or another error, or the cancelled context, with the error of Close if it has one.
  pub data ServerEvent : Type 0 where
    served_closed : ServerEvent
    served_error : Text → ServerEvent
    cancelled : Option Text → ServerEvent

  ended : ServerEvent → Result ListenError (Unit {0})
  ended served_closed = ok tt
  ended (served_error e) = err (server_failed e)
  ended (cancelled (some e)) = err (close_failed e)
  ended (cancelled none) = ok tt

  -- StartUDSLogServer
  unfoldable pub start_uds_log_server : Text → ServerEvent → Action ListenError Files (Unit {0})
  unfolding ended
  start_uds_log_server path event files =
      if is_empty path
      then (err no_address, files)
      else (do new_listener path; from (ended event)) files

put_over :
    (x y w : Option File) (b : Bool) → (if b then x else if b then y else w) ≡ (if b then x else w)
put_over x y w true = refl
put_over x y w false = refl

put_drop :
    (x y w : Option File) (b : Bool)
    → (if b then x else if b then y else if b then none else w) ≡ (if b then x else w)
put_drop x y w true = refl
put_drop x y w false = refl

module _ (os : Os) (reliable : IsReliable os) where
  -- The part of NewListener behind the removal, where nothing is left under the path.
  listened :
      (path : Text) (files : Files)
      → files path ≡ none
      → (do
        wrapping listen_failed (listen_unix os path)
        check_socket os path
        wrapping chmod_failed (change_mode os path 438))
          files
        ≡ (
          ok tt,
          put path
              (record { content = codes ""; mode = 438 })
              (put path (record { content = codes ""; mode = os.masked 511 }) files),
        )
  unfolding check_socket
  listened path files free =
      let self = (text_eq_iff path path).1 refl in
      let socket : File = record { content = codes ""; mode = os.masked 511 } in
      let made = put path socket files in
      rw
        (
          listen_unix_lem os reliable path files free,
          file_exists_lem os reliable path made,
          self,
          change_mode_lem os reliable path 438 made socket (rw self refl),
        )
        refl

  -- On a system that refuses no call the server gets its socket: a file that an earlier run left
  -- under the path is replaced, whatever it is, the new one lets everyone read and write, and no
  -- other file changes.
  pub new_listener-replaced :
      (path : Text) (files : Files)
      → (files' : Files) × (new_listener os path files ≡ (ok tt, files'))
        × ((q : Text)
            → files' q ≡ (
                if text_eq path q
                then some (record { content = codes ""; mode = 438 })
                else files q))
  unfolding new_listener remove_stale after_remove try_mkdir
  new_listener-replaced path files =
      let self = (text_eq_iff path path).1 refl in
      elim (Option-cases (files path)) [
        | inl e ↦ (
          put path (record { content = codes ""; mode = 438 })
              (put path (record { content = codes ""; mode = os.masked 511 }) files),
          rw
              (
                remove-none os reliable path files e,
                ask_lem os reliable (mkdir_all (dir path)) files,
              )
              (listened path files e),
          λ q. put_over _ _ _ (text_eq path q),
        )
        | inr (f, e) ↦ (
          put path (record { content = codes ""; mode = 438 })
              (put path (record { content = codes ""; mode = os.masked 511 }) (drop path files)),
          rw
              (
                remove_lem os reliable path files f e,
                ask_lem os reliable (mkdir_all (dir path)) (drop path files),
              )
              (listened path (drop path files) (rw self refl)),
          λ q. put_drop _ _ _ (text_eq path q),
        )
      ]

-- ===== src/Cmd/Shutdown.antt =====
-- The end of main in cmd/webhook/main.go and cmd/installer/main.go: the group of servers, the
-- goroutine that waits for the context, the one that waits for the group, and main itself, which
-- take turns in any order.
pub mod Progress
use gopher_cni.Prelude.{
  Bool, Option, arith, false, inl, inr, none, refl, some, suc, true, ℕ, ◌≡◌, ◌⊎◌,
}
use gopher_cni.Sidecar.{Exit, failure, success}

-- The variables that the goroutines share. The group holds `running` servers; `failed` says whether
-- one of them returned an error, `signalled` whether a signal came; a signal or an error cancels the
-- context. `initiated` and `complete` say whether the two channels are closed.
pub record Main : Type 0 where
  pub running : ℕ
  pub failed : Bool
  pub signalled : Bool
  pub cancelled : Bool
  pub initiated : Bool
  pub complete : Bool
  pub exited : Option Exit

abbrev pub started : ℕ → Main
started servers = record {
  running = servers;
  failed = false;
  signalled = false;
  cancelled = false;
  initiated = false;
  complete = false;
  exited = none;
}

-- One step of a process that has not ended. A server returns without an error once the context is
-- cancelled, and not before. logging.Fatal ends the process with a failure.
pub data MainStep (m : Main) : Main → Type 0 where
  signal : m.exited ≡ none → MainStep m (record m { signalled = true; cancelled = true })
  server_done :
      (rest : ℕ)
      → m.exited ≡ none
      → m.running ≡ suc rest
      → m.cancelled ≡ true
      → MainStep m (record m { running = rest })
  server_failed :
      (rest : ℕ)
      → m.exited ≡ none
      → m.running ≡ suc rest
      → MainStep m (record m { running = rest; failed = true; cancelled = true })
  initiate : m.exited ≡ none → m.cancelled ≡ true → MainStep m (record m { initiated = true })
  group_failed :
      m.exited ≡ none
      → m.running ≡ 0
      → m.initiated ≡ true
      → m.failed ≡ true
      → MainStep m (record m { exited = some failure })
  group_done :
      m.exited ≡ none
      → m.running ≡ 0
      → m.initiated ≡ true
      → m.failed ≡ false
      → MainStep m (record m { complete = true })
  shut_down :
      m.exited ≡ none
      → m.initiated ≡ true
      → m.complete ≡ true
      → MainStep m (record m { exited = some success })
  timed_out : m.exited ≡ none → m.initiated ≡ true → MainStep m (record m { exited = some failure })

pub data MainReach (m : Main) : Main → Type 0 where
  main_start : MainReach m m
  main_next : {n o : Main} → MainReach m n → MainStep n o → MainReach m o

-- The end of main of cmd/installer/main.go, whose group has the log server and the installer.
abbrev pub InstallerReach : Main → Type 0
InstallerReach = MainReach (started 2)

-- What holds of the variables at every moment.
record IsSound (m : Main) : Type 0 where
  cause : m.cancelled ≡ true → (m.signalled ≡ true) ⊎ (m.failed ≡ true)
  initiated_cancelled : m.initiated ≡ true → m.cancelled ≡ true
  complete_done : m.complete ≡ true → (m.running ≡ 0) × (m.failed ≡ false) × (m.signalled ≡ true)
  success_complete : m.exited ≡ some success → m.complete ≡ true

cause_signal : (m : Main) → IsSound m → m.initiated ≡ true → m.failed ≡ false → m.signalled ≡ true
cause_signal m s i f = elim (s.cause (s.initiated_cancelled i)) [ inl e ↦ e | inr e ↦ cc ]

MainStep-IsSound : (m n : Main) → MainStep m n → IsSound m → IsSound n
MainStep-IsSound m n (signal x) s = record {
  cause = λ h. inl refl;
  initiated_cancelled = λ h. refl;
  complete_done = λ h. let d = s.complete_done h in (d.0, d.1, refl);
  success_complete = s.success_complete;
}
MainStep-IsSound m n (server_done rest x r c) s = record {
  cause = s.cause;
  initiated_cancelled = s.initiated_cancelled;
  complete_done = λ h. let d = s.complete_done h in absurd (omega (arith, d.0, r));
  success_complete = s.success_complete;
}
MainStep-IsSound m n (server_failed rest x r) s = record {
  cause = λ h. inr refl;
  initiated_cancelled = λ h. refl;
  complete_done = λ h. let d = s.complete_done h in absurd (omega (arith, d.0, r));
  success_complete = s.success_complete;
}
MainStep-IsSound m n (initiate x c) s = record {
  cause = s.cause;
  initiated_cancelled = λ h. c;
  complete_done = s.complete_done;
  success_complete = s.success_complete;
}
MainStep-IsSound m n (group_failed x r i f) s = record {
  cause = s.cause;
  initiated_cancelled = s.initiated_cancelled;
  complete_done = s.complete_done;
  success_complete = λ h. cc;
}
MainStep-IsSound m n (group_done x r i f) s = record {
  cause = s.cause;
  initiated_cancelled = s.initiated_cancelled;
  complete_done = λ h. (r, f, cause_signal m s i f);
  success_complete = λ h. refl;
}
MainStep-IsSound m n (shut_down x i c) s = record {
  cause = s.cause;
  initiated_cancelled = s.initiated_cancelled;
  complete_done = s.complete_done;
  success_complete = λ h. c;
}
MainStep-IsSound m n (timed_out x i) s = record {
  cause = s.cause;
  initiated_cancelled = s.initiated_cancelled;
  complete_done = s.complete_done;
  success_complete = λ h. cc;
}

started-IsSound : (servers : ℕ) → IsSound (started servers)
started-IsSound servers = record {
  cause = λ h. cc;
  initiated_cancelled = λ h. cc;
  complete_done = λ h. cc;
  success_complete = λ h. cc;
}

MainReach-IsSound : (servers : ℕ) (m : Main) → MainReach (started servers) m → IsSound m
MainReach-IsSound servers m main_start = started-IsSound servers
MainReach-IsSound servers o (main_next {n} r st) =
    MainStep-IsSound n o st (MainReach-IsSound servers n r)

-- In whatever order its goroutines run, a process that ends with success was sent a signal, and all
-- of its servers have returned, none of them with an error.
pub MainReach-success :
    (servers : ℕ) (m : Main)
    → MainReach (started servers) m
    → m.exited ≡ some success
    → (m.signalled ≡ true) × (m.running ≡ 0) × (m.failed ≡ false)
MainReach-success servers m r ended =
    let s = MainReach-IsSound servers m r in
    let d = s.complete_done (s.success_complete ended) in (d.2, d.0, d.1)

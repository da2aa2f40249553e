-- ===== src/Cmd/Shutdown/Progress.antt =====
-- The runs of main in cmd/webhook/main.go and cmd/installer/main.go: that they come to an end once
-- the context is cancelled.
use gopher_cni.Cmd.Shutdown.{
  Main, MainStep, group_done, group_failed, initiate, server_done, server_failed, shut_down, signal,
  timed_out,
}
use gopher_cni.Prelude.{Bool, Option, false, none, some, true, ℕ, ◌+◌, ◌≡◌, ◌≢◌}
use gopher_cni.Sidecar.{Exit}

-- What does not come from the program itself: a signal, a server's error, the time that runs out.
pub is_outside : {m n : Main} → MainStep m n → Bool
is_outside (signal x) = true
is_outside (server_failed rest x r) = true
is_outside (timed_out x i) = true
is_outside (server_done rest x r c) = false
is_outside (initiate x c) = false
is_outside (group_failed x r i f) = false
is_outside (group_done x r i f) = false
is_outside (shut_down x i c) = false

-- A step that the program can take by itself and that changes a variable.
pub record Move (m : Main) : Type 0 where
  pub next : Main
  pub step : MainStep m next
  pub own : is_outside step ≡ false
  pub changes : m ≢ next

-- A process comes to its end, whatever comes from outside and in whatever order its goroutines run:
-- it has ended, or it can move by itself, and each step that changes a variable leads to a process
-- that comes to its end.
pub data Ends : Main → Type 0 where
  over : (m : Main) (e : Exit) → m.exited ≡ some e → Ends m
  goes : (m : Main) → Move m → ((n : Main) → MainStep m n → m ≢ n → Ends n) → Ends m

-- What is still to be done: servers that run, a signal, four variables that are set once.
unset : Bool → ℕ
unset true = 0
unset false = 1

not_ended : Option Exit → ℕ
not_ended none = 1
not_ended (some e) = 0

left_over : Main → ℕ
unfolding unset not_ended
left_over m =
    m.running
    + unset m.signalled
    + unset m.cancelled
    + unset m.initiated
    + unset m.complete
    + not_ended m.exited

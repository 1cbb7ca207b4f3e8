-- ===== src/Conn/Connect.antt =====
-- The retry loop `connect` of task/connection.go.
use systemd_runtime.Common.{
  ℕ, suc, ◌+◌, ◌≤◌, ◌<◌, List, [], ◌∷◌, none, is_some, false, ◌≡◌, arith, if◌then◌else◌, ◌&&◌, not,
}
use systemd_runtime.Conn.{Round, gave_up, looping, connect}

-- The rounds in which `ShimStatus` fails.
abbrev pub failures : List Round → ℕ
failures [] = 0
failures (r ∷ rs) = if is_some r.status_err then suc (failures rs) else failures rs

-- `connect`, from a count of failures on, deletes the bundle only if that count and the rounds in
-- which the status could not be read come to ten or more.
gave_up_failures : (n : ℕ) (rs : List Round) → connect n rs ≡ gave_up → 10 ≤ n + failures rs
unfolding connect
gave_up_failures n [] h = let no_case : ⊥ = cc in absurd no_case
gave_up_failures n (r ∷ rs) h = ground (arith, gave_up_failures n rs, gave_up_failures (n + 1) rs)

-- A round in which `connect` goes on: the task is not disabled, a shim runs or may be started, and
-- no connection is made.
pub record GoesOn (r : Round) : Type 0 where
  pub alive : r.disabled ≡ false
  pub may_run : (r.status.disabled && not r.running) ≡ false
  pub no_connection : r.connection ≡ none

abbrev pub AllGoOn : List Round → Type 0
AllGoOn [] = Unit
AllGoOn (r ∷ rs) = GoesOn r × AllGoOn rs

-- As long as rounds bring nothing, `connect`, from a count of failures below ten on, goes on with the
-- count of all failures, and gives up once they come to ten.
connect_counts :
    (n : ℕ) (rs : List Round)
    → AllGoOn rs
    → n < 10
    → (n + failures rs < 10 → connect n rs ≡ looping (n + failures rs))
      × (10 ≤ n + failures rs → connect n rs ≡ gave_up)
unfolding connect
connect_counts n [] g h = (λ k. ground arith, λ k. absurd (omega arith))
connect_counts n (r ∷ rs) (g, gs) h = (
  λ k. ground (arith, connect_counts n rs gs h, connect_counts (n + 1) rs gs),
  λ k. ground (arith, connect_counts n rs gs h, connect_counts (n + 1) rs gs),
)

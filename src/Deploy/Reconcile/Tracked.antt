-- ===== src/Deploy/Reconcile/Tracked.antt =====
-- Rows of running machines and the processes behind them, as Reconcile of internal/daemon/daemon.go
-- goes through them.
use oakberryio.Prelude.{
  ◌≡◌, refl, arith, ℕ, zero, suc, Bool, true, false, ◌||◌, ◌&&◌, any, none, some, List, [], ◌∷◌,
  ◌==◌, nat_eq, text_eq, if◌then◌else◌, All, ==_refl, ==_iff, inl, inr, Bool-cases,
}
use oakberryio.Prelude.Dict.{Dict, lookup, insert, lookup-insert}
use oakberryio.Table.{update_by}
use oakberryio.Table.Laws.{All-imp}
use oakberryio.Store.{Machine, running, failed}
use oakberryio.Store.Machines.{pid_arg, coalesce, state_eq}
use oakberryio.Deploy.{Handle}

unfoldable pub in_process : Dict Handle → Machine → Bool
in_process hs r = elim (lookup r.id hs) [ none ↦ false | some h ↦ coalesce r.pid == h.pid ]

-- A row that runs has a handle, and the process of this handle.
unfoldable pub tracked : Dict Handle → Machine → Bool
tracked hs r = if r.state == running then in_process hs r else true

-- The rows are tracked, but for those of the machines that are still to come.
abbrev pub Settled : List Machine → List Machine → Dict Handle → Type 0
Settled pending rows hs = All (λ r. (any (λ m. m.id == r.id) pending || tracked hs r) ≡ true) rows

coalesce-pid_arg : (n : ℕ) → coalesce (pid_arg n) ≡ n
unfolding coalesce pid_arg
coalesce-pid_arg zero = refl
coalesce-pid_arg (suc n) = refl

-- At first each row that runs is still to come.
pub to_come :
    (rows : List Machine) (hs : Dict Handle) (xs : List Machine)
    → ((q : Machine → Bool) → any q xs ≡ true → any q rows ≡ true)
    → All (λ r. (any (λ m. m.state == running && m.id == r.id) rows || tracked hs r) ≡ true) xs
unfolding tracked any
to_come rows hs [] sub = tt
to_come rows hs (x ∷ xs) sub = (
  ground (arith, sub (λ m. m.state == running && m.id == x.id), ==_refl x.id),
  to_come rows hs xs (λ q e. sub q (ground arith)),
)

-- A row of the machine that Reconcile is at: whatever its handle, it is among those to come.
pub set_handle-Settled :
    (m : Machine) (ms : List Machine) (h : Handle) (rows : List Machine) (hs : Dict Handle)
    → Settled (m ∷ ms) rows hs
    → Settled (m ∷ ms) rows (insert m.id h hs)
unfolding tracked in_process any
set_handle-Settled m ms h rows hs =
    All-imp rows (λ r e. ground (arith, lookup-insert r.id m.id h hs))

-- Rows of which one machine's were changed, where it is not to come any more.
module _ (m : Machine) (ms : List Machine) (hs : Dict Handle) (f : Machine → Machine)
    (good : (r : Machine) → r.id ≡ m.id → tracked hs (f r) ≡ true) where
  updated-Settled :
      (rows : List Machine)
      → Settled (m ∷ ms) rows hs
      → Settled ms (update_by (λ (r : Machine). r.id) m.id f rows) hs
  unfolding any update_by
  updated-Settled [] k = tt
  updated-Settled (r ∷ rows) (e, k) = (
    elim (Bool-cases (r.id == m.id)) [
      | inl here ↦ rw (here, good r ((==_iff r.id m.id).0 here)) (ground arith)
      | inr other ↦ rw other (ground arith)
    ],
    updated-Settled rows k,
  )

pub running-Settled :
    (m : Machine) (ms : List Machine) (h : Handle) (rows : List Machine) (hs : Dict Handle)
    → lookup m.id hs ≡ some h
    → Settled (m ∷ ms) rows hs
    → Settled ms
        (update_by
          (λ (r : Machine). r.id)
          m.id
          (λ r. record r { state = running; pid = pid_arg h.pid })
          rows)
        hs
unfolding tracked in_process
running-Settled m ms h rows hs found =
    updated-Settled m ms hs _
      (λ r here. ground (arith, found, coalesce-pid_arg h.pid, ==_refl h.pid, here)) rows

pub failed-Settled :
    (m : Machine) (ms : List Machine) (rows : List Machine) (hs : Dict Handle)
    → Settled (m ∷ ms) rows hs
    → Settled ms
        (update_by
          (λ (r : Machine). r.id)
          m.id
          (λ r. record r { state = failed; pid = pid_arg 0 })
          rows)
        hs
unfolding tracked state_eq
failed-Settled m ms rows hs =
    updated-Settled m ms hs (λ r. record r { state = failed; pid = pid_arg 0 }) (λ r here. refl)
      rows

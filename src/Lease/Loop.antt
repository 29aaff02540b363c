-- ===== src/Lease/Loop.antt =====
-- The goroutine `run` of the lease manager, pkg/lease/manager.go, with checkExpirations, Revoke and Stop:
-- the channel revokeC has no buffer, so that a send and a receive of two goroutines meet.
use fir_etcd.Prelude.{
  get_elem?, ℤ, ℕ, zero, suc, ◌≡◌, Bool, true, false, Option, none, some, List, [], ◌∷◌, ◌++◌,
}
use fir_etcd.Lease.{LeaseManager, revoke_lease, expired_leases}
use fir_etcd.Lease.Laws.{LeaseCall, call}

-- Where `run` stands: at the select; in checkExpirations at the send of an id, with the ids that are
-- behind it and the lock of the manager held; or at its end.
pub data LoopState : Type 0 where
  selecting : LoopState
  sending : ℤ → List ℤ → LoopState
  stopped : LoopState

-- The loop of checkExpirations over the ids of the expired leases; at its end it gives the lock back.
unfoldable pub send_ids : List ℤ → LoopState
send_ids [] = selecting
send_ids (id ∷ ids) = sending id ids

unfoldable pub check_expirations : LeaseManager → ℤ → LoopState
unfolding send_ids
check_expirations lm now = send_ids (expired_leases lm now)

-- The manager, its goroutine, and the calls of Revoke that stand at their send.
pub record Running : Type 0 where
  pub manager : LeaseManager
  pub loop : LoopState
  pub callers : List ℤ

-- A goroutine: `run`, or a call of Revoke by its place.
pub data Goroutine : Type 0 where
  run : Goroutine
  caller : ℕ → Goroutine

-- What a goroutine sends on revokeC.
unfoldable pub sends : Running → Goroutine → Option ℤ
sends s run = elim s.loop [ selecting ↦ none | sending id ids ↦ some id | stopped ↦ none ]
sends s (caller n) = get_elem? s.callers n

-- Whether a goroutine waits to receive on revokeC.
unfoldable pub receives : Running → Goroutine → Bool
receives s run = elim s.loop [ selecting ↦ true | sending id ids ↦ false | stopped ↦ false ]
receives s (caller n) = false

abbrev pub drop_at : ℕ → List ℤ → List ℤ
drop_at n [] = []
drop_at zero (id ∷ ids) = ids
drop_at (suc n) (id ∷ ids) = id ∷ drop_at n ids

-- The sender goes on behind its send.
unfoldable pub after_send : Running → Goroutine → Running
unfolding send_ids
after_send s run = record s {
  loop = elim s.loop [ selecting ↦ selecting | sending id ids ↦ send_ids ids | stopped ↦ stopped ];
}
after_send s (caller n) = record s { callers = drop_at n s.callers }

-- The receiver takes the id: revokeLease.
unfoldable pub after_receive : Running → Goroutine → ℤ → Running
after_receive s run id = record s { manager = revoke_lease s.manager id }
after_receive s (caller n) id = s

-- The lock of the manager is held between two steps only by checkExpirations at its send.
unfoldable pub locked : Running → Bool
locked s = elim s.loop [ selecting ↦ false | sending id ids ↦ true | stopped ↦ false ]

pub data RunStep (s : Running) : Running → Type 0 where
  ticks :
      (now : ℤ)
      → s.loop ≡ selecting
      → RunStep s (record s { loop = check_expirations s.manager now })
  asks_revoke : (id : ℤ) → RunStep s (record s { callers = s.callers ++ id ∷ [] })
  meets :
      (sender receiver : Goroutine) (id : ℤ)
      → sends s sender ≡ some id
      → receives s receiver ≡ true
      → RunStep s (after_receive (after_send s sender) receiver id)
  calls_manager :
      (c : LeaseCall) → locked s ≡ false → RunStep s (record s { manager = call s.manager c })
  stops : s.loop ≡ selecting → RunStep s (record s { loop = stopped })

pub data RunSteps (s : Running) : Running → Type 0 where
  here : RunSteps s s
  next : {t u : Running} → RunSteps s t → RunStep t u → RunSteps s u

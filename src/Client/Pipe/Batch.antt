-- ===== src/Client/Pipe/Batch.antt =====
-- A batch on the server, and the same operations sent one by one.

use fir_etcd.Client.Lock.{write_args}
use fir_etcd.Kv.Requests.{PutAppendArgs, op_of}
use fir_etcd.Prelude.{
  ◌>>=◌, ◌+ℤ◌, ℤ, pos, leb_ℤ, ◌==ℤ◌, +ℤ_parts, ==ℤ_refl, Bytes, ◌≡◌, refl, sym, ap, ◌∙◌, Bool,
  false, Option, none, some, List, [], ◌∷◌, ◌++◌, append-nil, append_assoc, arith,
}
use fir_etcd.Store.{Entry}
use fir_etcd.Kv.{put_t, append_t, del_t, del_with_prefix_t, batch_t, Op}
use fir_etcd.Kv.Spec.{Abstract, batch_step, batch_steps, decoded_step, op_step, step, steps}
use fir_etcd.Kv.Once.{reached, marked_at}
use fir_etcd.Client.Pipe.Leases.{SameButLease}
use fir_etcd.Client.Pipe.{
  Pipe, append_op, PipeCall, pipe_delete, pipe_delete_with_prefix, pipe_put, pipe_append,
  op_of_call, call_all, new_pipe, batch_args,
}

-- The request that the client writes for the same call: Delete, DeleteWithPrefix, Put and Append of
-- client/client.go, with the lease that the loop of `write` is granted.
unfoldable pub single_args : (client_id latest_offset lease_id : ℤ) → PipeCall → PutAppendArgs
unfolding write_args
single_args client_id latest_offset lease_id (pipe_delete key) =
    record (write_args client_id latest_offset key [] [] (pos 0) (pos 0) del_t) {
      lease_id = lease_id;
    }
single_args client_id latest_offset lease_id (pipe_delete_with_prefix prefix) =
    record (write_args client_id latest_offset prefix [] [] (pos 0) (pos 0) del_with_prefix_t) {
      lease_id = lease_id;
    }
single_args client_id latest_offset lease_id (pipe_put key value ttl now) =
    record (write_args client_id latest_offset key value [] ttl now put_t) { lease_id = lease_id }
single_args client_id latest_offset lease_id (pipe_append key value ttl now) =
    record (write_args client_id latest_offset key value [] ttl now append_t) {
      lease_id = lease_id;
    }

-- The operations of these requests, one after the other; each takes the next offset of the client.
abbrev pub single_ops : (client_id latest_offset : ℤ) → (ℤ → ℤ) → List PipeCall → List Op
single_ops client_id latest_offset leases [] = []
single_ops client_id latest_offset leases (c ∷ cs) =
    op_of (single_args client_id latest_offset (leases latest_offset) c)
    ∷ single_ops client_id (latest_offset +ℤ pos 1) leases cs

-- Each Append has a time to live.
abbrev pub AppendsEnd : List PipeCall → Type 0
AppendsEnd [] = Unit {0}
AppendsEnd (pipe_append key value ttl now ∷ cs) = ((ttl ==ℤ pos 0) ≡ false) × AppendsEnd cs
AppendsEnd (c ∷ cs) = AppendsEnd cs

abbrev pub ops_of_calls : List PipeCall → List Op
ops_of_calls [] = []
ops_of_calls (c ∷ cs) = op_of_call c ∷ ops_of_calls cs

call_all-ops : (cs : List PipeCall) (p : Pipe) → (call_all p cs).ops ≡ p.ops ++ ops_of_calls cs
unfolding call_all append_op
call_all-ops [] p = sym (append-nil p.ops)
call_all-ops (c ∷ cs) p =
    call_all-ops cs (append_op p (op_of_call c)).0
    ∙ append_assoc p.ops (op_of_call c ∷ []) (ops_of_calls cs)

module _ (accepts : Bytes → Entry → Bool) (decode_ops : Bytes → Option (List Op)) where
  -- A single write with a new offset changes the entries as the operation does inside a batch.
  single :
      (c : PipeCall) (a b : Abstract) (client number lease : ℤ)
      → AppendsEnd (c ∷ [])
      → leb_ℤ number (reached a client) ≡ false
      → step accepts decode_ops a (op_of (single_args client number lease c)) ≡ some b
      → (b.entries ≡ batch_step accepts decode_ops a.entries (op_of_call c))
        × (reached b client ≡ number)
  unfolding op_of_call step op_step batch_step single_args op_of write_args
  single (pipe_delete key) a b client number lease ends fresh h =
      ground (arith, fresh, h, ==ℤ_refl client)
  single (pipe_delete_with_prefix prefix) a b client number lease ends fresh h =
      ground (arith, fresh, h, ==ℤ_refl client)
  single (pipe_put key value ttl now) a b client number lease ends fresh h =
      ground (arith, fresh, h, ==ℤ_refl client)
  single (pipe_append key value ttl now) a b client number lease ends fresh h =
      ground (arith, ends.0, fresh, h, ==ℤ_refl client)

  AppendsEnd-cons :
      (c : PipeCall) (cs : List PipeCall)
      → AppendsEnd (c ∷ cs)
      → AppendsEnd (c ∷ []) × AppendsEnd cs
  AppendsEnd-cons (pipe_delete key) cs h = (tt, h)
  AppendsEnd-cons (pipe_delete_with_prefix prefix) cs h = (tt, h)
  AppendsEnd-cons (pipe_put key value ttl now) cs h = (tt, h)
  AppendsEnd-cons (pipe_append key value ttl now) cs h = ((h.0, tt), h.1)

  after_step :
      (o : Option Abstract) (f : Abstract → Option Abstract) (b : Abstract)
      → (o >>= f) ≡ some b
      → (m : Abstract) × (o ≡ some m) × (f m ≡ some b)
  after_step none f b h = cc
  after_step (some m) f b h = (m, refl, h)

  singles :
      (cs : List PipeCall) (a b : Abstract) (client number : ℤ) (leases : ℤ → ℤ)
      → AppendsEnd cs
      → leb_ℤ number (reached a client) ≡ false
      → steps accepts decode_ops a (single_ops client number leases cs) ≡ some b
      → b.entries ≡ batch_steps accepts decode_ops a.entries (ops_of_calls cs)
  unfolding steps batch_steps
  singles [] a b client number leases ends fresh h =
      ap (λ (x : Abstract). x.entries) (sym (some_eq a b h))
    where
      some_eq : (x y : Abstract) → some x ≡ some y → x ≡ y
      some_eq x y e = cc e
  singles (c ∷ cs) a b client number leases ends fresh h =
      let (m, first, later) =
        after_step (step accepts decode_ops a (op_of (single_args client number (leases number) c)))
          (λ x. steps accepts decode_ops x (single_ops client (number +ℤ pos 1) leases cs)) b h in
      let (own, others) = AppendsEnd-cons c cs ends in
      let one : (m.entries ≡ batch_step accepts decode_ops a.entries (op_of_call c))
          × (reached m client ≡ number) =
        single c a m client number (leases number) own fresh first in
      let newer : leb_ℤ (number +ℤ pos 1) (reached m client) ≡ false =
        rw one.1 (ground (arith, +ℤ_parts number (pos 1))) in
      singles cs m b client (number +ℤ pos 1) leases others newer later
      ∙ ap (λ x. batch_steps accepts decode_ops x (ops_of_calls cs)) one.0

  -- A lease does not change what an operation of a batch does.
  batch_step-lease :
      (o p : Op) (e : Bytes → Option Entry)
      → record o { lease_id = p.lease_id } ≡ p
      → batch_step accepts decode_ops e p ≡ batch_step accepts decode_ops e o
  unfolding batch_step
  batch_step-lease o p e h = rw (sym h) refl

  batch_steps-leases :
      (os ps : List Op) (e : Bytes → Option Entry)
      → SameButLease os ps
      → batch_steps accepts decode_ops e ps ≡ batch_steps accepts decode_ops e os
  unfolding batch_steps
  batch_steps-leases [] [] e h = refl
  batch_steps-leases [] (p ∷ ps) e h = absurd h
  batch_steps-leases (o ∷ os) [] e h = absurd h
  batch_steps-leases (o ∷ os) (p ∷ ps) e (first, rest) =
      rw (batch_step-lease o p e first) (batch_steps-leases os ps _ rest)

  batch_applied :
      (a : Abstract) (args : PutAppendArgs) (ops : List Op)
      → args.op ≡ batch_t
      → leb_ℤ args.latest_offset (reached a args.client_id) ≡ false
      → decode_ops args.value ≡ some ops
      → (c : Abstract) × (step accepts decode_ops a (op_of args) ≡ some c)
        × (c.entries ≡ batch_steps accepts decode_ops a.entries ops)
  unfolding step op_step decoded_step op_of
  batch_applied a args ops t fresh d = (
    record (marked_at accepts decode_ops a (op_of args)) {
      entries = batch_steps accepts decode_ops a.entries ops;
    },
    ground (arith, t, fresh, d),
    refl,
  )

  -- A pipe that is sent as one batch leaves the entries of the server as the client does when it makes
  -- the same calls one by one, at the same times, if each Append has a time to live and the server
  -- takes each of those single writes. The offsets are new, the leases may differ, and the batch decodes
  -- to the operations of the pipe.
  pub batch-singles :
      (cs : List PipeCall) (marshal : List Op → Bytes) (ops : List Op) (leases : ℤ → ℤ)
      (a b : Abstract) (client number : ℤ)
      → AppendsEnd cs
      → leb_ℤ number (reached a client) ≡ false
      → SameButLease (call_all new_pipe cs).ops ops
      → decode_ops (marshal ops) ≡ some ops
      → steps accepts decode_ops a (single_ops client number leases cs) ≡ some b
      → (c : Abstract) × (step accepts decode_ops a
            (op_of (batch_args client number marshal (record (call_all new_pipe cs) { ops = ops })))
          ≡ some c)
        × (c.entries ≡ b.entries)
  unfolding batch_args write_args
  batch-singles cs marshal ops leases a b client number ends fresh same d h =
      let (c, e, entries) =
        batch_applied a
          (batch_args client number marshal (record (call_all new_pipe cs) { ops = ops })) ops refl
          fresh d in
      (
        c,
        e,
        entries
            ∙ batch_steps-leases (call_all new_pipe cs).ops ops a.entries same
            ∙ ap (batch_steps accepts decode_ops a.entries) (call_all-ops cs new_pipe)
            ∙ sym (singles cs a b client number leases ends fresh h),
      )

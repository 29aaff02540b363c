-- ===== src/Client/Bounds.antt =====
-- The indices that the client reads its tables at.

pub mod Returns
use fir_etcd.Prelude.{
  Bool-cases, ◌>>=◌, length, get_elem?, set, length-set, get_elem?_lt, ℤ, pos, negsuc, pos_part,
  ◌≤ℤ◌, ◌<ℤ◌, ◌==ℤ◌, minus_one, at, offset, ℕ, zero, suc, ◌<◌, ◌≡◌, refl, ◌∙◌, inl, inr, Bool,
  Option, none, some, List, [], ◌∷◌, arith,
}
use fir_etcd.Client.{
  Client, Sending, Turn, done, again, change_next_send_id, leave_server, find_valid, follow_leader,
  found_turn, after_turn, send_loop,
}

-- The place of a server in the list of the client, or a negative number.
abbrev pub IsLocal : ℕ → ℤ → Type 0
IsLocal n (pos i) = i < n
IsLocal n (negsuc i) = Unit {0}

abbrev pub AllLocal : ℕ → List ℤ → Type 0
AllLocal n [] = Unit {0}
AllLocal n (i ∷ is) = IsLocal n i × AllLocal n is

-- The next server is one of the servers, and the table has a place for each server and holds places.
pub record IsSound (ck : Client) : Type 0 where
  pub next : ck.next_send_local_id < ck.servers
  pub size : length ck.s_to_c ≡ ck.servers
  pub local : AllLocal ck.servers ck.s_to_c

AllLocal-set :
    (n : ℕ) (is : List ℤ) (k i : ℕ) → i < n → AllLocal n is → AllLocal n (set is k (pos i))
AllLocal-set n [] k i lt h = tt
AllLocal-set n (j ∷ is) zero i lt h = (lt, h.1)
AllLocal-set n (j ∷ is) (suc k) i lt h = (h.0, AllLocal-set n is k i lt h.1)

AllLocal-get :
    (n : ℕ) (is : List ℤ) (k : ℕ) (i : ℤ) → get_elem? is k ≡ some i → AllLocal n is → IsLocal n i
AllLocal-get n [] k i e h = cc
AllLocal-get n (j ∷ is) zero i e h = ground (arith, e)
AllLocal-get n (j ∷ is) (suc k) i e h = AllLocal-get n is k i e h.1

change_next-IsSound : (ck : Client) → IsSound ck → IsSound (change_next_send_id ck)
unfolding change_next_send_id
change_next-IsSound ck h = record { next = omega (arith, h.next); size = h.size; local = h.local }

leave_server-IsSound :
    (limit : ℕ) (ck : Client) (s : Sending) → IsSound ck → IsSound (leave_server limit ck s).0
unfolding leave_server
leave_server-IsSound limit ck s h = ground (arith, h, change_next-IsSound ck h)

find_valid-IsSound :
    (rounds : ℕ) (valid : ℕ → Bool) (ck : Client)
    → IsSound ck
    → IsSound (find_valid rounds valid ck).0
unfolding find_valid
find_valid-IsSound zero valid ck h = h
find_valid-IsSound (suc rounds) valid ck h = elim (Bool-cases (valid ck.next_send_local_id)) [
  | inl e ↦ rw e h
  | inr e ↦
      rw e (find_valid-IsSound rounds valid (change_next_send_id ck) (change_next-IsSound ck h))
]

same_servers-find :
    (rounds : ℕ) (valid : ℕ → Bool) (ck : Client)
    → (find_valid rounds valid ck).0.servers ≡ ck.servers
unfolding find_valid change_next_send_id
same_servers-find zero valid ck = refl
same_servers-find (suc rounds) valid ck =
    ground (arith, same_servers-find rounds valid (change_next_send_id ck))

same_servers-leave :
    (limit : ℕ) (ck : Client) (s : Sending) → (leave_server limit ck s).0.servers ≡ ck.servers
unfolding leave_server change_next_send_id
same_servers-leave limit ck s = ground arith

-- The server `server_id` is one of the `n` servers, and the leader is one of them or unknown.
abbrev pub InCluster : ℕ → (leader_id server_id : ℤ) → Type 0
InCluster n leader_id server_id =
    (pos 0 ≤ℤ server_id) × (server_id <ℤ pos n) × (minus_one ≤ℤ leader_id) × (leader_id <ℤ pos n)

-- A sound client of `n` servers.
module _ (n : ℕ) where
  abbrev pub IsKept : Client → Type 0
  IsKept ck = IsSound ck × (ck.servers ≡ n)

  pub known-IsKept :
      (ck : Client) (server_id : ℤ)
      → IsKept ck
      → IsKept
          (record ck { s_to_c = set ck.s_to_c (pos_part server_id) (pos ck.next_send_local_id) })
  known-IsKept ck server_id (h, e) = (
    record {
      next = h.next;
      size = length-set ck.s_to_c (pos_part server_id) (pos ck.next_send_local_id) ∙ h.size;
      local =
          AllLocal-set ck.servers ck.s_to_c (pos_part server_id) ck.next_send_local_id h.next
            h.local;
    },
    e,
  )

  -- The table can be read at the id of a server of the cluster.
  table_at :
      (ck : Client) (id : ℤ)
      → IsKept ck
      → pos 0 ≤ℤ id
      → id <ℤ pos n
      → (i : ℤ) × (at ck.s_to_c id ≡ some i) × IsLocal ck.servers i
  table_at ck (negsuc k) (h, e) lo hi = absurd (omega arith)
  table_at ck (pos k) (h, e) lo hi =
      let (i, r) = get_elem?_lt ck.s_to_c k (omega (arith, h.size, e)) in
      (i, r, AllLocal-get ck.servers ck.s_to_c k i r h.local)

  pub taken-IsKept :
      (ck : Client) (server_id offset : ℤ)
      → IsKept ck
      → IsKept (record ck {
        s_to_c = set ck.s_to_c (pos_part server_id) (pos ck.next_send_local_id);
        latest_offset = offset;
      })
  taken-IsKept ck server_id offset h =
      let k : IsKept _ = known-IsKept ck server_id h in
      (record { next = k.0.next; size = k.0.size; local = k.0.local }, k.1)

  pub change-IsKept : (ck : Client) → IsKept ck → IsKept (change_next_send_id ck)
  unfolding change_next_send_id
  change-IsKept ck (h, e) = (change_next-IsSound ck h, e)

-- A turn returns, with a sound client of the `n` servers.
module _ (n : ℕ) (R : Type 0) where
  abbrev pub Goes : Option (Turn R) → Type 0
  Goes none = ⊥
  Goes (some (done ck r)) = IsKept n ck
  Goes (some (again ck s)) = IsKept n ck

  abbrev pub Comes : Option (Client × R) → Type 0
  Comes none = ⊥
  Comes (some (ck, r)) = IsKept n ck

  at_local :
      (ck : Client) (s : Sending) (i : ℤ)
      → IsKept n ck
      → IsLocal ck.servers i
      → Goes (
          some (
            again
              (elim i [
                | pos k ↦ record ck { next_send_local_id = k }
                | negsuc k ↦ change_next_send_id ck
              ])
              s))
  at_local ck s (pos k) (h, e) lt = (record { next = lt; size = h.size; local = h.local }, e)
  at_local ck s (negsuc k) h lt = change-IsKept n ck h

  pub follow-Goes :
      (ck : Client) (s : Sending) (leader_id : ℤ)
      → IsKept n ck
      → minus_one ≤ℤ leader_id
      → leader_id <ℤ pos n
      → Goes (follow_leader ck leader_id >>= λ ck'. some (again ck' s))
  unfolding follow_leader
  follow-Goes ck s leader_id h lo hi = elim (Bool-cases (leader_id ==ℤ minus_one)) [
    | inl e ↦ rw e (change-IsKept n ck h)
    | inr e ↦
        let (i, r, lt) = table_at n ck leader_id h (ground (arith, e)) hi in
        rw (e, r) (at_local ck s i h lt)
  ]

  -- The id of the answering server is in the table.
  pub read_at-Goes :
      (ck : Client) (server_id : ℤ) (o : Option (Turn R))
      → IsKept n ck
      → pos 0 ≤ℤ server_id
      → server_id <ℤ pos n
      → Goes o
      → Goes (at ck.s_to_c server_id >>= λ _. o)
  read_at-Goes ck server_id o h lo hi g = let (i, r, lt) = table_at n ck server_id h lo hi in rw r g

  pub found-Goes :
      (limit : ℕ) (valid : ℕ → Bool) (ck : Client) (s : Sending)
      (ask : Client → Sending → Option (Turn R))
      → IsKept n ck
      → ((c : Client) (s' : Sending) → IsKept n c → Goes (ask c s'))
      → Goes (found_turn limit valid ck s ask)
  unfolding found_turn
  found-Goes limit valid ck s ask (h, e) asked =
      let left : Client × Sending = leave_server limit ck s in
      let found : Client × Bool = find_valid ck.servers valid left.0 in
      let kept : IsKept n found.0 = (
        find_valid-IsSound ck.servers valid left.0 (leave_server-IsSound limit ck s h),
        same_servers-find ck.servers valid left.0 ∙ same_servers-leave limit ck s ∙ e,
      ) in
      elim (Bool-cases found.1) [ inl f ↦ rw f (asked found.0 left.1 kept) | inr f ↦ rw f kept ]

  after_turn-Comes :
      (o : Option (Turn R)) (go_on : Client → Sending → Option (Client × R))
      → Goes o
      → ((ck : Client) (s : Sending) → IsKept n ck → Comes (go_on ck s))
      → Comes (after_turn go_on o)
  after_turn-Comes none go_on g ih = g
  after_turn-Comes (some (done ck r)) go_on g ih = g
  after_turn-Comes (some (again ck s)) go_on g ih = ih ck s g

  pub send_loop-Comes :
      (failed : R) (turn : ℕ → Client → Sending → Option (Turn R))
      → ((i : ℕ) (ck : Client) (s : Sending) → IsKept n ck → Goes (turn i ck s))
      → (turns : ℕ) (ck : Client) (s : Sending) → IsKept n ck
      → Comes (send_loop failed turn turns ck s)
  unfolding send_loop
  send_loop-Comes failed turn goes zero ck s h = h
  send_loop-Comes failed turn goes (suc turns) ck s h =
      after_turn-Comes (turn turns ck s) (λ c s'. send_loop failed turn turns c s')
        (goes turns ck s h) (send_loop-Comes failed turn goes turns)

  pub Comes-Returns :
      (o : Option (Client × R))
      → Comes o
      → (ck : Client) × (r : R) × (o ≡ some (ck, r)) × IsSound ck
  Comes-Returns none c = absurd c
  Comes-Returns (some (ck, r)) c = (ck, r, refl, c.0)

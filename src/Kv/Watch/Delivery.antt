-- ===== src/Kv/Watch/Delivery.antt =====
-- Which watcher gets an event.
use fir_etcd.Prelude.{
  if◌then◌else◌, Bool-cases, ℤ, ◌==ℤ◌, ==ℤ→eq, Bytes, bytes_equal, bytes_equal→eq, has_prefix,
  int_key, bytes_key, Map, is_some, lookup, remove, insert, lookup-remove, lookup-insert, ◌≡◌, refl,
  ap, ap₂, inl, inr, Bool, true, false, not, ◌&&◌, Option, none, some, [], ◌∷◌, arith,
}
use fir_etcd.Kv.{WatchEvent}
use fir_etcd.Kv.Watch.{
  Watcher, Watchers, WatcherManager, watchers_of, add_watcher, register, drop_watcher, deregister,
  offer, offer_all, notify_exact, notify_prefix, notify,
}

-- The watcher with an id among those of a key or a prefix.
abbrev pub watcher_at : WatcherManager → Bytes → Bool → ℤ → Option Watcher
watcher_at wm key is_prefix id =
    lookup (watchers_of (if is_prefix then wm.prefix_watchers else wm.exact_watchers) key) id

abbrev pub concerns : Bytes → Bool → WatchEvent → Bool
concerns key is_prefix event =
    if is_prefix then has_prefix event.key key else bytes_equal key event.key

abbrev pub with_event : WatchEvent → Option Watcher → Option Watcher
with_event event none = none
with_event event (some w) = some (offer event w)

lookup-offer_all :
    (event : WatchEvent) (m : Map ℤ Watcher) (id : ℤ)
    → lookup (offer_all event m) id ≡ with_event event (lookup m id)
unfolding offer_all
lookup-offer_all event [] id = refl
lookup-offer_all event ((k, w) ∷ m) id = ground (arith, lookup-offer_all event m id)

exact_lem :
    (ws : Watchers) (event : WatchEvent) (key : Bytes) (id : ℤ)
    → lookup (watchers_of (notify_exact ws event) key) id ≡ (
        if bytes_equal key event.key
        then with_event event (lookup (watchers_of ws key) id)
        else lookup (watchers_of ws key) id)
unfolding notify_exact
exact_lem [] event key id = ground arith
exact_lem ((k, m) ∷ ws) event key id = elim (Bool-cases (bytes_equal k key)) [
  | inl e ↦ ground (
    arith,
    lookup-offer_all event m id,
    ap (λ x. bytes_equal x event.key) (bytes_equal→eq k key e),
  )
  | inr e ↦ ground (arith, exact_lem ws event key id)
]

prefix_lem :
    (ws : Watchers) (event : WatchEvent) (key : Bytes) (id : ℤ)
    → lookup (watchers_of (notify_prefix ws event) key) id ≡ (
        if has_prefix event.key key
        then with_event event (lookup (watchers_of ws key) id)
        else lookup (watchers_of ws key) id)
unfolding notify_prefix
prefix_lem [] event key id = ground arith
prefix_lem ((k, m) ∷ ws) event key id = elim (Bool-cases (bytes_equal k key)) [
  | inl e ↦
      ground
        (arith, lookup-offer_all event m id, ap (has_prefix event.key) (bytes_equal→eq k key e))
  | inr e ↦ ground (arith, prefix_lem ws event key id)
]

-- Notify offers the event to exactly the watchers of its key and of the prefixes of its key, and
-- changes no other watcher.
pub watcher_at-notify :
    (wm : WatcherManager) (event : WatchEvent) (key : Bytes) (is_prefix : Bool) (id : ℤ)
    → watcher_at (notify wm event) key is_prefix id ≡ (
        if concerns key is_prefix event
        then with_event event (watcher_at wm key is_prefix id)
        else watcher_at wm key is_prefix id)
unfolding notify
watcher_at-notify wm event key true id = prefix_lem wm.prefix_watchers event key id
watcher_at-notify wm event key false id = exact_lem wm.exact_watchers event key id

abbrev pub same_kind : Bool → Bool → Bool
same_kind true b = b
same_kind false b = not b

watchers_of-insert :
    (ws : Watchers) (from key : Bytes) (m : Map ℤ Watcher)
    → watchers_of (insert ws from m) key ≡ (if bytes_equal from key then m else watchers_of ws key)
watchers_of-insert ws from key m = ground (arith, lookup-insert ws from key m)

watchers_of-remove :
    (ws : Watchers) (from key : Bytes)
    → watchers_of (remove ws from) key ≡ (if bytes_equal from key then [] else watchers_of ws key)
watchers_of-remove ws from key = ground (arith, lookup-remove ws from key)

keep_or_remove :
    (ws : Watchers) (from key : Bytes) (rest : Map ℤ Watcher)
    → watchers_of (elim rest [ [] ↦ remove ws from | w ∷ m ↦ insert ws from (w ∷ m) ]) key
      ≡ (if bytes_equal from key then rest else watchers_of ws key)
keep_or_remove ws from key [] = watchers_of-remove ws from key
keep_or_remove ws from key (w ∷ m) = watchers_of-insert ws from key (w ∷ m)

removed_lem :
    (ws : Watchers) (from key : Bytes) (gone id : ℤ)
    → lookup
        (if bytes_equal from key then remove (watchers_of ws from) gone else watchers_of ws key)
        id
      ≡ (if bytes_equal from key && (gone ==ℤ id) then none else lookup (watchers_of ws key) id)
removed_lem ws from key gone id = elim (Bool-cases (bytes_equal from key)) [
  | inl f ↦ ground (
    arith,
    lookup-remove (watchers_of ws from) gone id,
    ap (λ k. lookup (watchers_of ws k) id) (bytes_equal→eq from key f),
  )
  | inr f ↦ rw f refl
]

absent_lem :
    (ws : Watchers) (from key : Bytes) (gone id : ℤ)
    → is_some (lookup (watchers_of ws from) gone) ≡ false
    → lookup (watchers_of ws key) id
      ≡ (if bytes_equal from key && (gone ==ℤ id) then none else lookup (watchers_of ws key) id)
absent_lem ws from key gone id e = elim (Bool-cases (bytes_equal from key)) [
  | inl f ↦ elim (Bool-cases (gone ==ℤ id)) [
    | inl g ↦ ground (
      arith,
      ap₂ (λ k i. lookup (watchers_of ws k) i) (bytes_equal→eq from key f) (==ℤ→eq gone id g),
    )
    | inr g ↦ rw (f, g) refl
  ]
  | inr f ↦ rw f refl
]

drop_lem :
    (ws : Watchers) (from key : Bytes) (gone id : ℤ)
    → lookup (watchers_of (drop_watcher ws from gone) key) id
      ≡ (if bytes_equal from key && (gone ==ℤ id) then none else lookup (watchers_of ws key) id)
unfolding drop_watcher
drop_lem ws from key gone id = elim (Bool-cases (is_some (lookup (watchers_of ws from) gone))) [
  | inl e ↦
      rw (e, keep_or_remove ws from key (remove (watchers_of ws from) gone))
        (removed_lem ws from key gone id)
  | inr e ↦ rw e (absent_lem ws from key gone id e)
]

-- Deregister takes out the watcher with this id of this key and no other one.
pub watcher_at-deregister :
    (wm : WatcherManager) (gone id : ℤ) (from key : Bytes) (is_prefix other : Bool)
    → watcher_at (deregister wm gone from is_prefix) key other id ≡ (
        if bytes_equal from key && (same_kind is_prefix other && (gone ==ℤ id))
        then none
        else watcher_at wm key other id)
unfolding deregister drop_watcher
watcher_at-deregister wm gone id from key true true = drop_lem wm.prefix_watchers from key gone id
watcher_at-deregister wm gone id from key true false = ground arith
watcher_at-deregister wm gone id from key false true = ground arith
watcher_at-deregister wm gone id from key false false = drop_lem wm.exact_watchers from key gone id

pub add_lem :
    (ws : Watchers) (w : Watcher) (key : Bytes) (id : ℤ)
    → lookup (watchers_of (add_watcher ws w) key) id
      ≡ (if bytes_equal w.key key && (w.id ==ℤ id) then some w else lookup (watchers_of ws key) id)
unfolding add_watcher
add_lem ws w key id = elim (Bool-cases (bytes_equal w.key key)) [
  | inl e ↦ ground (
    arith,
    watchers_of-insert ws w.key key (insert (watchers_of ws w.key) w.id w),
    lookup-insert (watchers_of ws w.key) w.id id w,
    ap (λ k. lookup (watchers_of ws k) id) (bytes_equal→eq w.key key e),
  )
  | inr e ↦ ground (arith, watchers_of-insert ws w.key key (insert (watchers_of ws w.key) w.id w))
]

abbrev pub fresh_watcher : WatcherManager → Bytes → Bool → Watcher
fresh_watcher wm key is_prefix = record {
  id = wm.next_watcher_id;
  key = key;
  is_prefix = is_prefix;
  event_chan = [];
}

-- Register adds one watcher with the next id and an empty channel, and changes no watcher with
-- another key, kind or id.
pub watcher_at-register :
    (wm : WatcherManager) (at_key key : Bytes) (is_prefix other : Bool) (id : ℤ)
    → watcher_at (register wm at_key is_prefix).0 key other id ≡ (
        if bytes_equal at_key key && (same_kind is_prefix other && (wm.next_watcher_id ==ℤ id))
        then some (fresh_watcher wm at_key is_prefix)
        else watcher_at wm key other id)
unfolding register
watcher_at-register wm at_key key true true id =
    add_lem wm.prefix_watchers (fresh_watcher wm at_key true) key id
watcher_at-register wm at_key key true false id = ground arith
watcher_at-register wm at_key key false true id = ground arith
watcher_at-register wm at_key key false false id =
    add_lem wm.exact_watchers (fresh_watcher wm at_key false) key id

-- ===== src/Relay/Keys.antt =====
-- The primary keys of the two tables of src/mapping.rs: no statement makes two rows with one key.
use cardano_lightning_relay.Prelude.{
  ◌+◌, ◌≤◌, ◌≡◌, refl, ℤ, ==ℤ_iff, String, eq_iff, Bool, none, some, List, [], ◌∷◌, ◌++◌, arith,
  count, update_where,
}
use cardano_lightning_relay.Mapping.{OfframpMapping, SwapDb}
use cardano_lightning_relay.Mapping.Onramp
use cardano_lightning_relay.Mapping.Onramp.{has_hash, has_hash_in, set_status}
use cardano_lightning_relay.Mapping.Offramp
use cardano_lightning_relay.Mapping.Offramp.{has_id, has_id_in}
use cardano_lightning_relay.Mapping.Claims.{count-has_hash-update, count-append}
use cardano_lightning_relay.Libs.{Libs}
use cardano_lightning_relay.Runtime.{Cmd, Resp, World, perform, Prog}
use cardano_lightning_relay.Runtime.Tasks.{
  Move, acts, calls, Step, here, there, start, Reach, begin, next,
}
use cardano_lightning_relay.Relay.{Starts}

-- At most one row for each payment hash and for each offramp number.
abbrev pub KeysUnique : SwapDb → Type 0
KeysUnique db =
    ((h : String) → count (has_hash h) db.swaps ≤ 1) × ((i : ℤ) → count (has_id i) db.offramps ≤ 1)

count-id-append :
    (i : ℤ) (m : OfframpMapping) (rows : List OfframpMapping)
    → count (has_id i) (rows ++ m ∷ []) ≡ count (has_id i) rows + count (has_id i) (m ∷ [])
count-id-append i m [] = omega arith
count-id-append i m (r ∷ rows) = ground (arith, count-id-append i m rows)

count-id-update :
    (i : ℤ) (p : OfframpMapping → Bool) (f : OfframpMapping → OfframpMapping)
    → ((r : OfframpMapping) → (f r).offramp_id ≡ r.offramp_id)
    → (rows : List OfframpMapping)
    → count (has_id i) (update_where p f rows) ≡ count (has_id i) rows
count-id-update i p f same [] = refl
count-id-update i p f same (r ∷ rows) = ground (arith, count-id-update i p f same rows, same r)

swap-keys :
    (h : String) (c : Cmd) (w : World) (r : Resp c) {w' : World}
    → perform c w ≡ some (r, w')
    → count (has_hash h) w.db.swaps ≤ 1
    → count (has_hash h) w'.db.swaps ≤ 1
unfolding Onramp.insert Onramp.update_status Onramp.transition_status Offramp.insert_offramp
    Offramp.update_offramp_status Offramp.transition_offramp_status
    Offramp.transition_offramp_with_cbtc_tx
swap-keys h (Cmd.insert m) w r e one = ground (
  arith,
  count-append (has_hash h) w.db.swaps (record m { cardano_tx_hash = none } ∷ []),
  eq_iff m.payment_hash h,
)
swap-keys h (Cmd.update_status k s tx) w r e one =
    ground (arith, count-has_hash-update h s tx (has_hash k) w.db.swaps)
swap-keys h (Cmd.transition_status k s t tx) w r e one =
    ground (arith, count-has_hash-update h t tx (has_hash_in k s) w.db.swaps)
swap-keys h c w r e one = ground arith

offramp-keys :
    (i : ℤ) (c : Cmd) (w : World) (r : Resp c) {w' : World}
    → perform c w ≡ some (r, w')
    → count (has_id i) w.db.offramps ≤ 1
    → count (has_id i) w'.db.offramps ≤ 1
unfolding Onramp.insert Onramp.update_status Onramp.transition_status Offramp.insert_offramp
    Offramp.update_offramp_status Offramp.transition_offramp_status
    Offramp.transition_offramp_with_cbtc_tx
offramp-keys i (Cmd.insert_offramp m) w r e one =
    ground (arith, count-id-append i (Offramp.inserted m) w.db.offramps, ==ℤ_iff m.offramp_id i)
offramp-keys i (Cmd.update_offramp_status k s p d x) w r e one =
    ground
      (arith, count-id-update i (has_id k) (Offramp.set_offramp s p d x) (λ r. refl) w.db.offramps)
offramp-keys i (Cmd.transition_offramp_status k s t) w r e one = ground (
  arith,
  count-id-update i (has_id_in k s) (Offramp.set_offramp_status t) (λ r. refl) w.db.offramps,
)
offramp-keys i (Cmd.transition_offramp_with_cbtc_tx k tx s t) w r e one =
    ground (
      arith,
      count-id-update i (has_id_in k s) (Offramp.set_cbtc_tx tx t) (λ r. refl) w.db.offramps,
    )
offramp-keys i c w r e one = ground arith

-- Whatever statement a task makes and whatever it answers, unique keys stay unique, in both tables.
pub perform-KeysUnique :
    (c : Cmd) (w : World) (r : Resp c) {w' : World}
    → perform c w ≡ some (r, w')
    → KeysUnique w.db
    → KeysUnique w'.db
perform-KeysUnique c w r e keys =
    (λ h. swap-keys h c w r e (keys.0 h), λ i. offramp-keys i c w r e (keys.1 i))

Move-KeysUnique :
    {p q : Prog Unit} {w w' : World} → Move p w q w' → KeysUnique w.db → KeysUnique w'.db
Move-KeysUnique (acts {c} {w} r e) keys = perform-KeysUnique c w r e keys
Move-KeysUnique (calls r) keys = keys

Step-KeysUnique :
    {libs : Libs} {ps qs : List (Prog Unit)} {w w' : World}
    → Step (Starts libs) ps w qs w'
    → KeysUnique w.db
    → KeysUnique w'.db
Step-KeysUnique (here m) keys = Move-KeysUnique m keys
Step-KeysUnique (there s) keys = Step-KeysUnique s keys
Step-KeysUnique (start p s) keys = keys

-- From a state in which every payment hash and every offramp number has at most one row, whatever
-- the tasks of the relay do in any interleaving, this is so in every state that is reached.
pub Reach-KeysUnique :
    (libs : Libs) {w₀ w : World} {ps : List (Prog Unit)}
    → Reach (Starts libs) w₀ ps w
    → KeysUnique w₀.db
    → KeysUnique w.db
Reach-KeysUnique libs begin keys = keys
Reach-KeysUnique libs (next r s) keys = Step-KeysUnique s (Reach-KeysUnique libs r keys)

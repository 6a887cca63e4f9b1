-- ===== src/Connection/ReadEntry.antt =====
-- The node that a slot is read from (redisson-rs/src/connection/fred_connection_manager.rs).
use native.Mathlib.Nat.{mod-lt}
use redisson_rs.Base.{
  true, ℕ, zero, suc, ◌<◌, ◌%◌, ◌≡◌, refl, ap, ◌∙◌, false, Bool-cases, inl, inr, none, some,
  Option-cases, List, [], ◌∷◌, is_empty, length, get_elem?, arith,
}
use redisson_rs.Config.{ReadMode}
use redisson_rs.Config.Client.{Server}
use redisson_rs.Connection.{
  MasterSlaveEntry, from_slot, Routing, Topology, get_write_entry, is_master, get_read_entry,
}

get_elem?-below :
    (servers : List Server) (i : ℕ)
    → i < length servers
    → (server : Server) × (get_elem? servers i ≡ some server)
get_elem?-below [] i below = absurd (omega (arith, below))
get_elem?-below (s ∷ servers) zero below = (s, refl)
get_elem?-below (s ∷ servers) (suc i) below = get_elem?-below servers i (omega (arith, below))

mod_below :
    (n : ℕ) (servers : List Server) → is_empty servers ≡ false → n % length servers < length servers
mod_below n [] some_server = absurd (ground arith)
mod_below n (s ∷ servers) some_server = mod-lt n (omega arith)

-- Why a slot is read from its primary: the mode says so, there is no routing table, or the table
-- lists no replica for the primary.
pub data ReadsPrimary (mode : ReadMode) (t : Topology) (slot : ℕ) : Type 0 where
  by_mode : is_master mode ≡ true → ReadsPrimary mode t slot
  no_table : t.routing ≡ none → ReadsPrimary mode t slot
  no_replica :
      (routing : Routing) (p : Server)
      → t.routing ≡ some routing
      → routing.get_server slot ≡ some p
      → is_empty (routing.replicas p) ≡ true
      → ReadsPrimary mode t slot

-- Where a slot is read: at its primary, for one of these reasons, or else at the replica of the
-- primary that the slot's number chooses.
pub data ReadsFrom (mode : ReadMode) (t : Topology) (slot : ℕ) : Type 0 where
  nowhere :
      get_write_entry t slot ≡ none → get_read_entry mode t slot ≡ none → ReadsFrom mode t slot
  primary :
      (e : MasterSlaveEntry)
      → ReadsPrimary mode t slot
      → get_write_entry t slot ≡ some e
      → get_read_entry mode t slot ≡ some e
      → ReadsFrom mode t slot
  replica :
      (routing : Routing) (p r : Server)
      → is_master mode ≡ false
      → t.routing ≡ some routing
      → get_write_entry t slot ≡ some (from_slot slot p)
      → is_empty (routing.replicas p) ≡ false
      → get_elem? (routing.replicas p) (slot % length (routing.replicas p)) ≡ some r
      → get_read_entry mode t slot ≡ some (from_slot slot r)
      → ReadsFrom mode t slot

same_as_write :
    (mode : ReadMode) (t : Topology) (slot : ℕ)
    → ReadsPrimary mode t slot
    → get_read_entry mode t slot ≡ get_write_entry t slot
    → ReadsFrom mode t slot
same_as_write mode t slot why same = elim (Option-cases (get_write_entry t slot)) [
  | inl is ↦ nowhere is (same ∙ is)
  | inr (e, is) ↦ primary e why is (same ∙ is)
]

cluster_write :
    (t : Topology) (slot : ℕ) (routing : Routing) (p : Server)
    → t.routing ≡ some routing
    → routing.get_server slot ≡ some p
    → get_write_entry t slot ≡ some (from_slot slot p)
unfolding get_write_entry
cluster_write t slot routing p is at =
    ap (λ r. get_write_entry (record t { routing = r }) slot) is ∙ rw at refl

no_server_write :
    (t : Topology) (slot : ℕ) (routing : Routing)
    → t.routing ≡ some routing
    → routing.get_server slot ≡ none
    → get_write_entry t slot ≡ none
unfolding get_write_entry
no_server_write t slot routing is lost =
    ap (λ r. get_write_entry (record t { routing = r }) slot) is ∙ rw lost refl

-- A slot has no entry to read from when it has none to write to. Otherwise it is read at the entry to
-- write to when the mode is master, there is no routing table or the table lists no replica for the
-- slot's primary, and in all other cases at the replica whose place is the slot's number modulo
-- theirs, under the same slot; that place is never out of range.
pub get_read_entry-ReadsFrom : (mode : ReadMode) (t : Topology) (slot : ℕ) → ReadsFrom mode t slot
unfolding get_read_entry get_write_entry
get_read_entry-ReadsFrom mode t slot = elim (Bool-cases (is_master mode)) [
  | inl yes' ↦ same_as_write mode t slot (by_mode yes') (simp yes')
  | inr reading ↦ elim (Option-cases t.routing) [
    | inl alone ↦ same_as_write mode t slot (no_table alone) (simp (reading, alone))
    | inr (routing, is) ↦ elim (Option-cases (routing.get_server slot)) [
      | inl lost ↦
          let unwritten = no_server_write t slot routing is lost in
          nowhere unwritten (simp (reading, is, lost) unwritten)
      | inr (p, at) ↦ elim (Bool-cases (is_empty (routing.replicas p))) [
        | inl bare ↦
            primary (from_slot slot p) (no_replica routing p is at bare)
              (cluster_write t slot routing p is at) (simp (reading, is, at, bare))
        | inr some_replica ↦
            let (r, found) =
              get_elem?-below (routing.replicas p) _
                (mod_below slot (routing.replicas p) some_replica) in
            replica routing p r reading is (cluster_write t slot routing p is at) some_replica found
              (simp (reading, is, at, some_replica, found))
      ]
    ]
  ]
]

-- ===== src/Engine/Networks.antt =====
-- The owned networks of internal/engine/network.go: their records, the choice of a subnet, and the
-- endpoints that containers get.
pub mod Endpoints
pub mod Slots
pub mod Apart
pub mod Interfaces
pub mod Ownership
pub mod Attaching
pub mod Steps
pub mod Workers
pub mod Samples
use sandbox_codex.Common.{
  Bool, List, Option, Result, Str, [], all, any, codes, contains_byte, ensure, err, false, filter,
  if◌then◌else◌, insert, is_digit, is_lower, is_upper, leb, length, none, not, ok, some, str_eq,
  suc, true, zero, ℕ, ◌&&◌, ◌*◌, ◌++◌, ◌+◌, ◌==◌, ◌>>=◌, ◌>>◌, ◌^◌, ◌||◌, ◌∷◌,
}
use sandbox_codex.NetworkPolicy.Authority.{itoa}
use sandbox_codex.NetworkPolicy.Netip.{Prefix, agrees, v4, without_zone}

-- dn.EndpointResource: the endpoint of a container in the record of a network.
pub record Resource : Type 0 where
  pub name : Str
  pub endpoint_id : Str
  pub ipv4 : Str

-- networkRecord, with the fields of dn.Inspect that the code reads
pub record Network : Type 0 where
  pub id : Str
  pub name : Str
  pub internal : Bool
  pub slot : ℕ
  pub bridge : Str
  pub gateway : Str
  pub containers : List (Str × Resource)

-- dn.EndpointSettings: an endpoint in the record of a container
pub record Endpoint : Type 0 where
  pub network_id : Str
  pub endpoint_id : Str
  pub ip_address : Str
  pub gateway : Str
  pub interface : Str

-- What the networks read and write of the record of a container: two labels, and its endpoints by
-- the names of their networks.
pub record Container : Type 0 where
  pub id : Str
  pub name : Str
  pub managed : Str
  pub proxy_layout : Str
  pub networks : List (Str × Endpoint)

pub data EngineError : Type 0 where
  invalid_record ambiguous_network unknown_network existing_network : EngineError
  no_forwarding bad_network_request ipv6_refused no_subnet : EngineError
  worker_on_egress second_network not_a_member no_endpoint foreign_endpoint attached_endpoints :
      EngineError
  bad_job too_many_jobs : EngineError
  system_error : Str → EngineError

-- `^[a-f0-9]{64}$`
abbrev pub is_hex_id : Str → Bool
is_hex_id s = (length s == 64) && all (λ c. is_digit c || (leb b'a' c && leb c b'f')) s

abbrev pub is_name_byte : ℕ → Bool
is_name_byte c = is_lower c || (is_upper c || is_digit c)

-- `^[a-zA-Z0-9][a-zA-Z0-9_.-]{0,127}$`
abbrev pub is_valid_name : Str → Bool
is_valid_name [] = false
is_valid_name (c ∷ s) =
    is_name_byte c
    && leb (length s) 127
    && all (λ b. is_name_byte b || contains_byte b (codes "_.-")) s

-- `s[:n]`, where the text is long enough
abbrev pub leading : ℕ → Str → Str
leading zero s = []
leading (suc n) [] = []
leading (suc n) (c ∷ s) = c ∷ leading n s

-- The check of networks() on a record that it has read.
abbrev pub is_sound : Network → Bool
is_sound n =
    is_hex_id n.id
    && str_eq n.bridge (codes "cdx" ++ leading 12 n.id)
    && leb 1 n.slot
    && leb n.slot 254

-- networks: the records on the disk, if each of them is sound
unfoldable pub networks : List Network → Result EngineError (List Network)
networks rows = if all is_sound rows then ok rows else err invalid_record

abbrev pub is_named : Str → Network → Bool
is_named value n = str_eq n.id value || str_eq n.name value

-- The loop of network(), with what it has found.
unfoldable pub find_network : Str → Option Network → List Network → Result EngineError Network
find_network value none [] = err unknown_network
find_network value (some n) [] = ok n
find_network value found (n ∷ rows) =
    let kept = find_network value found rows in
    let first = find_network value (some n) rows in
    if is_named value n then elim found [ none ↦ first | some m ↦ err ambiguous_network ] else kept

-- network: the one with an ID or a name
unfoldable pub network : Str → List Network → Result EngineError Network
network value rows = do all_rows ← networks rows; find_network value none all_rows

-- address: `10.253.<slot>.<last>`
abbrev pub address : Network → ℕ → Str
address n last = codes "10.253." ++ (itoa n.slot ++ (codes "." ++ itoa last))

abbrev pub cidr : Network → ℕ → Str
cidr n last = address n last ++ codes "/24"

-- `10.253.<slot>.0/24`
abbrev pub subnet : ℕ → Prefix
subnet slot = record { addr = v4 (10 * 2 ^ 24 + 253 * 2 ^ 16 + slot * 2 ^ 8); bits = some 24 }

-- netip.Prefix.Overlaps, for valid prefixes: of one family, equal in the bits that both have
abbrev pub overlaps : Prefix → Prefix → Bool
overlaps p q = elim p.bits [
  | none ↦ false
  | some b ↦ elim q.bits [
    | none ↦ false
    | some c ↦ agrees (if leb b c then b else c) p.addr (without_zone q.addr)
  ]
]

-- The loop over the slots from `slot`, with the number of those that are left.
unfoldable pub free_slot : List Network → List Prefix → ℕ → ℕ → Option ℕ
free_slot rows host zero slot = none
free_slot rows host (suc left) slot =
    let later = free_slot rows host left (slot + 1) in
    if any (λ n. n.slot == slot) rows || any (λ p. overlaps p (subnet slot)) host
    then later
    else some slot

-- dn.CreateOptions, as far as the code reads it
pub record CreateOptions : Type 0 where
  pub driver : Str
  pub internal : Bool
  pub enable_ipv6 : Option Bool

-- What createNetwork reads of the host: whether it forwards, the addresses of its interfaces, and
-- the destinations of its routes, as texts, with netip.ParsePrefix; the new ID; and what becomes of
-- saving a record and of the commands that build a network, an endpoint, or remove one.
pub record Host : Type 0 where
  pub forwards : Result EngineError Bool
  pub parse_prefix : Str → Option Prefix
  pub interfaces : Result EngineError (List Str)
  pub routes : Result EngineError (List Str)
  pub new_id : Result EngineError Str
  pub save_network : Result EngineError (Unit {0})
  pub save_container : Result EngineError (Unit {0})
  pub build_network : Result EngineError (Unit {0})
  pub build_endpoint : Result EngineError (Unit {0})
  pub remove_link : Result EngineError (Unit {0})
  pub remove_bridge : Result EngineError (Unit {0})

-- The records on the disk: of networks, and of containers by their IDs.
pub record Engine : Type 0 where
  pub rows : List Network
  pub containers : List (Str × Container)

-- Saving puts a record in the place of the one with its ID, or adds it.
unfoldable pub put_network : Network → List Network → List Network
put_network n [] = n ∷ []
put_network n (m ∷ rows) =
    let rest = put_network n rows in if str_eq m.id n.id then n ∷ rows else m ∷ rest

abbrev pub with_network : Network → Engine → Engine
with_network n st = record st { rows = put_network n st.rows }

abbrev pub with_container : Container → Engine → Engine
with_container r st = record st { containers = insert r.id r st.containers }

-- Only an error that says so means that the network is not there.
abbrev pub absent : Result EngineError Network → Result EngineError (Unit {0})
absent (ok n) = err existing_network
absent (err unknown_network) = ok tt
absent (err e) = err e

-- A route to everything, of 0 bits, overlaps nothing.
abbrev pub is_narrow : Prefix → Bool
is_narrow p = elim p.bits [ none ↦ true | some b ↦ not (b == 0) ]

-- The texts that are no prefixes are skipped.
unfoldable pub read_prefixes : (Str → Option Prefix) → List Str → List Prefix
read_prefixes parse [] = []
read_prefixes parse (s ∷ ss) =
    let rest = read_prefixes parse ss in elim (parse s) [ none ↦ rest | some p ↦ p ∷ rest ]

module _ (host : Host) where
  abbrev pub check_forwarding : CreateOptions → Result EngineError (Unit {0})
  check_forwarding o = if o.internal then ok tt else (do f ← host.forwards; ensure f no_forwarding)

  abbrev pub some_slot : Option ℕ → Result EngineError ℕ
  some_slot none = err no_subnet
  some_slot (some slot) = ok slot

  -- createNetwork up to the new record: the guards and the choice of the subnet
  unfoldable pub plan_network : List Network → Str → CreateOptions → Result EngineError Network
  plan_network rows name o = do
    check_forwarding o
    ensure (is_valid_name name && str_eq o.driver (codes "bridge")) bad_network_request
    ensure (not (elim o.enable_ipv6 [ none ↦ false | some on ↦ on ])) ipv6_refused
    absent (network name rows)
    all_rows ← networks rows
    interfaces ← host.interfaces
    routes ← host.routes
    slot ← some_slot (
        free_slot all_rows
          (read_prefixes host.parse_prefix interfaces
            ++ filter is_narrow (read_prefixes host.parse_prefix routes))
          254 1)
    id ← host.new_id
    ok (record {
      id = id;
      name = name;
      internal = o.internal;
      slot = slot;
      bridge = codes "cdx" ++ leading 12 id;
      gateway = [];
      containers = [];
    })

  -- The gateway that materializeNetwork gives a network that is not internal.
  abbrev pub with_gateway : Network → Network
  with_gateway n = record n { gateway = if n.internal then n.gateway else address n 1 }

  abbrev pub materialize_network :
      Result EngineError (Unit {0}) → Network → Engine → Engine × Result EngineError Str
  materialize_network (err e) n st = (st, err e)
  materialize_network (ok _) n st = (with_network (with_gateway n) st, ok n.id)

  -- The record is saved before the network is built, and again with its gateway.
  abbrev pub save_planned :
      Result EngineError (Unit {0}) → Network → Engine → Engine × Result EngineError Str
  save_planned (err e) n st = (st, err e)
  save_planned (ok _) n st = materialize_network host.build_network n (with_network n st)

  abbrev pub commit_network : Result EngineError Network → Engine → Engine × Result EngineError Str
  commit_network (err e) st = (st, err e)
  commit_network (ok n) st = save_planned host.save_network n st

  -- createNetwork
  unfoldable pub create_network : Str → CreateOptions → Engine → Engine × Result EngineError Str
  create_network name o st = commit_network (plan_network st.rows name o) st

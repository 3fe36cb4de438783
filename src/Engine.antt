-- ===== src/Engine.antt =====
-- The registries of Engine in src/ofp/sys/engine.cpp: connections by number and by datapath, and
-- servers; with the parts of src/ofp/sys/connection.cpp that use them. Connections live in a store
-- by their address. What would use a connection that does not exist, or end the process for want
-- of numbers, returns none. Timers, signals and identities are left out.
pub mod Search
pub mod Links
pub mod Validity
pub mod Posting
pub mod Leaving
pub mod Closing
pub mod Finding
pub mod Steps
pub mod Safety
pub mod Replacing
pub mod Tests
use libofp.Base.{
  ℕ, zero, suc, ◌+◌, ◌-◌, ◌*◌, ◌/◌, ◌%◌, ◌^◌, Bool, true, false, ◌&&◌, ◌||◌, not, List, [], ◌∷◌,
  ◌++◌, Option, none, some, length, is_empty, get_or, ltb, leb, ◌==◌, if◌then◌else◌,
}
use libofp.Memory.{◌>>=◌}
use libofp.Connection
use libofp.Connection.{Connection, new_connection, set_flags}

pub record Server : Type 0 where
  pub address : ℕ
  pub server_id : ℕ
  pub is_listening : Bool

-- `store` holds the connections that exist; `dpid_map` is a map from datapaths to addresses.
pub record Engine : Type 0 where
  pub store : ℕ → Option Connection
  pub last_conn_id : ℕ
  pub conn_list : List ℕ
  pub server_list : List Server
  pub dpid_map : ℕ → Option ℕ

abbrev pub put {ℓ} : {A : Type ℓ} → ℕ → A → (ℕ → A) → ℕ → A
put a v f b = if a == b then v else f b

abbrev pub new_engine : Engine
new_engine = record {
  store = λ _. none;
  last_conn_id = 0;
  conn_list = [];
  server_list = [];
  dpid_map = λ _. none;
}

-- A change of the connection at an address
unfoldable pub modify : ℕ → (Connection → Connection) → Engine → Option Engine
modify a f e = elim (e.store a) [
  | none ↦ none
  | some c ↦ some (record e { store = put a (some (f c)) e.store })
]

abbrev pub without : ℕ → List ℕ → List ℕ
without b [] = []
without b (x ∷ xs) = if b == x then xs else x ∷ without b xs

abbrev pub remove_at : ℕ → List ℕ → List ℕ
remove_at i [] = []
remove_at zero (x ∷ xs) = xs
remove_at (suc i) (x ∷ xs) = x ∷ remove_at i xs

unfoldable pub assign_connection_id : Engine → Option (Engine × ℕ)
assign_connection_id e =
    let id : ℕ = (e.last_conn_id + 1) % 2 ^ 64 in
    if id == 0 then none else some (record e { last_conn_id = id }, id)

unfoldable pub register_connection : ℕ → Engine → Option (Engine × ℕ)
register_connection a e = assign_connection_id (record e { conn_list = e.conn_list ++ (a ∷ []) })

-- `std::lower_bound` by the numbers of the connections in the list, from `first` on
unfoldable pub lower_bound : (ℕ → Option Connection) → List ℕ → ℕ → ℕ → ℕ → ℕ → Option ℕ
lower_bound store list id zero first count = if count == 0 then some first else none
lower_bound store list id (suc fuel) first count =
    let half : ℕ = count / 2 in
    let right = lower_bound store list id fuel (first + half + 1) (count - (half + 1)) in
    let left = lower_bound store list id fuel first half in
    if count == 0 then some first else elim (store (get_or list (first + half) 0)) [
      | none ↦ none
      | some c ↦ if ltb c.connection_id id then right else left
    ]

-- The position of a connection in the list, which is its length if there is none
unfoldable pub find_conn_iter : ℕ → Engine → Option ℕ
find_conn_iter id e = do
  i ← lower_bound e.store e.conn_list id (length e.conn_list) 0 (length e.conn_list)
  if ltb i (length e.conn_list)
      then (do
        c ← e.store (get_or e.conn_list i 0)
        some (if c.connection_id == id then i else length e.conn_list))
      else some (length e.conn_list)

unfoldable pub find_conn_id : ℕ → Engine → Option (Option ℕ)
find_conn_id id e = do
  i ← find_conn_iter id e
  some (if ltb i (length e.conn_list) then some (get_or e.conn_list i 0) else none)

unfoldable pub find_datapath : ℕ → ℕ → Engine → Option (Option ℕ)
find_datapath id dpid e =
    if not (id == 0)
    then (do
      found ← find_conn_id id e
      elim found [
        | none ↦ some none
        | some a ↦ do
          c ← e.store a
          some (if dpid == 0 || c.datapath_id == dpid then some a else none)
      ])
    else some (if not (dpid == 0) then e.dpid_map dpid else none)

unfoldable pub release_connection : ℕ → Engine → Option Engine
release_connection a e = do
  c ← e.store a
  i ← find_conn_iter c.connection_id e
  some (if ltb i (length e.conn_list) then record e { conn_list = remove_at i e.conn_list } else e)

-- `shutdown` of the connection at an address
unfoldable pub shut : Bool → ℕ → Engine → Option Engine
unfolding modify
shut reset a e = modify a (Connection.shutdown reset) e

-- The first of the auxiliary connections with a number
unfoldable pub find_aux : (ℕ → Option Connection) → ℕ → List ℕ → Option (Option ℕ)
find_aux store aux_id [] = some none
find_aux store aux_id (b ∷ bs) =
    let rest = find_aux store aux_id bs in
    elim (store b) [
      | none ↦ none
      | some c ↦ if c.auxiliary_id == aux_id then some (some b) else rest
    ]

-- `setMainConnection` of the connection `a`
unfoldable pub set_main_connection : ℕ → ℕ → ℕ → Engine → Option Engine
set_main_connection a main aux_id e = do
  m ← e.store main
  e1 ←
      modify a
        (λ c. record c { main_conn = main; datapath_id = m.datapath_id; auxiliary_id = aux_id }) e
  found ← find_aux e1.store aux_id m.aux_list
  e2 ← elim found [ none ↦ some e1 | some b ↦ shut false b e1 ]
  modify main (λ c. record c { aux_list = c.aux_list ++ (a ∷ []) }) e2

unfoldable pub register_datapath : ℕ → Engine → Option (Engine × Bool)
register_datapath a e = do
  c ← e.store a
  if c.auxiliary_id == 0
      then elim (e.dpid_map c.datapath_id) [
        | none ↦ some (record e { dpid_map = put c.datapath_id (some a) e.dpid_map }, true)
        | some old ↦ if old == a then some (e, true) else (do
          e1 ← shut true old (record e { dpid_map = put c.datapath_id (some a) e.dpid_map })
          some (e1, true))
      ]
      else elim (e.dpid_map c.datapath_id) [
        | none ↦ some (e, false)
        | some main ↦ do
          m ← e.store main
          if m.permits_auxiliary
              then (do e1 ← set_main_connection a main c.auxiliary_id e; some (e1, true))
              else some (e, false)
      ]

-- `Connection::postDatapath`
unfoldable pub post_datapath : ℕ → ℕ → ℕ → Engine → Option (Engine × Bool)
post_datapath a dpid aux_id e = if dpid == 0 then some (e, false) else (do
  e1 ← modify a (λ c. record c { datapath_id = dpid; auxiliary_id = aux_id }) e
  register_datapath a e1)

unfoldable pub release_datapath : ℕ → Engine → Option Engine
release_datapath a e = do
  c ← e.store a
  some (
      if c.auxiliary_id == 0
      then elim (e.dpid_map c.datapath_id) [
        | none ↦ e
        | some b ↦ if b == a then record e { dpid_map = put c.datapath_id none e.dpid_map } else e
      ]
      else e)

-- The constructors of a TCP connection, at a free address: with a socket that is open, or a new one
unfoldable pub create : Bool → ℕ → ℕ → ℕ → ℕ → Engine → Option Engine
create is_open a security_id options now e = do
  (e1, id) ← register_connection a e
  some (record e1 {
    store = put a (some (set_flags security_id options (new_connection is_open a id now))) e1.store;
  })

abbrev pub each : (ℕ → Engine → Option Engine) → List ℕ → Engine → Option Engine
each f [] e = some e
each f (a ∷ more) e = f a e >>= each f more

-- What the destructor of a main connection does to one of its auxiliary connections; `delete` is the
-- destructor.
unfoldable pub let_go : (ℕ → Engine → Option Engine) → ℕ → Engine → Option Engine
let_go delete b e = do
  e1 ← modify b (λ c. record c { main_conn = b }) e
  e2 ← shut false b e1
  c ← e2.store b
  if c.manual_delete then delete b e2 else some e2

-- The destructors of a connection. Those of auxiliary connections that are deleted by the way run
-- inside; an auxiliary connection has none of its own, so two levels are enough.
unfoldable pub destroy_within : ℕ → ℕ → Engine → Option Engine
destroy_within zero a e = none
destroy_within (suc depth) a e = do
  c ← e.store a
  e1 ← if c.datapath_id == 0 then some e else (do
    e2 ← release_datapath a e
    if c.main_conn == a
        then each (let_go (destroy_within depth)) c.aux_list e2
        else modify c.main_conn (λ m. record m { aux_list = without a m.aux_list }) e2)
  e3 ← release_connection a e1
  some (record e3 { store = put a none e3.store })

abbrev pub destroy : ℕ → Engine → Option Engine
destroy a e = destroy_within 2 a e

-- `shutdown`, and the deletion of a connection that its creator has to delete
unfoldable pub close_connection : ℕ → Engine → Option Engine
close_connection a e = do
  e1 ← shut false a e
  c ← e1.store a
  if c.manual_delete then destroy a e1 else some e1

-- `findTCPServer` by number, and its `shutdown`
unfoldable pub close_server : ℕ → List Server → Option (List Server)
close_server id [] = none
close_server id (s ∷ rest) =
    let later = close_server id rest in
    if s.server_id == id
    then some (record s { is_listening = false } ∷ rest)
    else elim later [ none ↦ none | some changed ↦ some (s ∷ changed) ]

abbrev pub close_datapath : ℕ → ℕ → Engine → Option (Engine × ℕ)
close_datapath id dpid e = do
  found ← find_datapath id dpid e
  elim found [ none ↦ some (e, 0) | some a ↦ do e1 ← close_connection a e; some (e1, 1) ]

unfoldable pub close : ℕ → ℕ → Engine → Option (Engine × ℕ)
close id dpid e =
    if dpid == 0
    then (if id == 0 then some (e, 0) else elim (close_server id e.server_list) [
      | none ↦ close_datapath id dpid e
      | some servers ↦ some (record e { server_list = servers }, 1)
    ])
    else close_datapath id dpid e

-- The servers and the connections that were shut down are not in the lists any more.
unfoldable pub close_all : Engine → Option (Engine × ℕ)
close_all e =
    let result : ℕ = length e.server_list + length e.conn_list in
    if result == 0 then some (e, 0) else (do
      e1 ← each close_connection e.conn_list (record e { server_list = []; conn_list = [] })
      some (e1, result))

unfoldable pub register_server : ℕ → Engine → Option (Engine × ℕ)
register_server a e = do
  (e1, id) ← assign_connection_id e
  some (
    record e1 {
      server_list =
          e1.server_list ++ (record { address = a; server_id = id; is_listening = true } ∷ []);
    },
    id,
  )

-- `std::find` by address, and the removal of what it finds
unfoldable pub release_from : ℕ → List Server → List Server
release_from a [] = []
release_from a (s ∷ rest) = if s.address == a then rest else s ∷ release_from a rest

abbrev pub release_server : ℕ → Engine → Engine
release_server a e = record e { server_list = release_from a e.server_list }

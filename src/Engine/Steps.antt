-- ===== src/Engine/Steps.antt =====
-- Sequences of what happens to the engine of src/ofp/sys/engine.cpp and its connections.
use libofp.Base.{ℕ, ◌+◌, ◌^◌, ◌≡◌, Bool, true, false, ◌&&◌, Option, none, some, ◌==◌, ltb}
use libofp.Memory.{◌>>=◌}
use libofp.Connection
use libofp.Engine.{
  Engine, new_engine, modify, shut, create, post_datapath, destroy, close, close_all, find_datapath,
}

-- What can happen: to the connection at an address, or to the engine
pub data Op : Type 0 where
  create_at : Bool → ℕ → ℕ → ℕ → ℕ → Op
  post : ℕ → ℕ → ℕ → Op
  shut_down : Bool → ℕ → Op
  finish : ℕ → Op
  tick : Bool → ℕ → ℕ → Op
  read : ℕ → ℕ → Op
  raise : ℕ → Op
  connect : ℕ → Op
  destroy_at : ℕ → Op
  close_one : ℕ → ℕ → Op
  close_every : Op
  look_up : ℕ → ℕ → Op

abbrev pub exists : ℕ → Engine → Bool
exists a e = elim (e.store a) [ none ↦ false | some c ↦ true ]

-- A connection is created at a free address, while there are numbers, and nothing else happens to
-- one that does not exist; it gets a datapath only once.
unfoldable pub is_allowed : Op → Engine → Bool
is_allowed (create_at is_open a security_id options now) e =
    ltb (e.last_conn_id + 1) (2 ^ 64) && (elim (e.store a) [ none ↦ true | some c ↦ false ])
is_allowed (post a dpid aux_id) e = elim (e.store a) [ none ↦ false | some c ↦ c.datapath_id == 0 ]
is_allowed (shut_down reset a) e = exists a e
is_allowed (finish a) e = exists a e
is_allowed (tick taken now a) e = exists a e
is_allowed (read now a) e = exists a e
is_allowed (raise a) e = exists a e
is_allowed (connect a) e = exists a e
is_allowed (destroy_at a) e = exists a e
is_allowed (close_one id dpid) e = true
is_allowed close_every e = true
is_allowed (look_up id dpid) e = true

unfoldable pub run : Op → Engine → Option Engine
run (create_at is_open a security_id options now) e = create is_open a security_id options now e
run (post a dpid aux_id) e = do (f, result) ← post_datapath a dpid aux_id e; some f
run (shut_down reset a) e = shut reset a e
run (finish a) e = modify a Connection.finish_shutdown e
run (tick taken now a) e = modify a (Connection.tickle taken now) e
run (read now a) e = modify a (Connection.update_time_read_started now) e
run (raise a) e = modify a Connection.come_up e
run (connect a) e = modify a Connection.open_socket e
run (destroy_at a) e = destroy a e
run (close_one id dpid) e = do (f, result) ← close id dpid e; some f
run close_every e = do (f, result) ← close_all e; some f
run (look_up id dpid) e = do found ← find_datapath id dpid e; some e

-- The engines that come of such a sequence
pub data Reached : Engine → Type 0 where
  begun : Reached new_engine
  next :
      {e f : Engine}
      → Reached e
      → (op : Op) → is_allowed op e ≡ true
      → run op e ≡ some f
      → Reached f

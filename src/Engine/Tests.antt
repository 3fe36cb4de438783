-- ===== src/Engine/Tests.antt =====
-- Runs of the engine of src/ofp/sys/engine.cpp on sample inputs.
use libofp.Base.{ℕ, ◌≡◌, true, false, [], ◌∷◌, Option, none, some, refl, arith, ◌↔◌, if◌then◌else◌}
use libofp.Memory.{◌>>=◌}
use libofp.Connection
use libofp.Connection.{Connection}
use libofp.Engine.{
  Engine, new_engine, create, post_datapath, register_connection, assign_connection_id,
  find_datapath, find_conn_iter, lower_bound, destroy, destroy_within, close, close_all,
  close_server, close_connection, register_server, register_datapath, set_main_connection, find_aux,
  modify, shut, release_datapath, release_connection, let_go,
}
use libofp.Engine.Steps.{create_at, post, destroy_at, is_allowed, run, Reached, begun, next}
use libofp.Engine.Finding.{Finds}
use libofp.Engine.Safety.{Reached-run, Reached-find}
use libofp.Engine.Replacing.{post_datapath-replaces}

abbrev after : Option Engine → Engine
after none = new_engine
after (some e) = e

-- A main connection at 5 that permits auxiliary ones, and one at 9 that is auxiliary to it
abbrev first : Engine
first = after (create true 5 0 3 100 new_engine)

abbrev second : Engine
second = after (create true 9 0 1 100 first)

abbrev third : Engine
third = after (run (post 5 77 0) second)

abbrev both : Engine
both = after (run (post 9 77 1) third)

-- The number and the auxiliary connections of what a datapath leads to
auxiliary : (both.store 5 >>= (λ c. some c.aux_list)) ≡ some (9 ∷ [])
unfolding create register_connection assign_connection_id Connection.set_flags
    Connection.new_connection run post_datapath register_datapath set_main_connection find_aux
    modify
auxiliary = refl

-- With the main connection, its auxiliary one is shut down, and the datapath is free again.
ended : Engine
unfolding create register_connection assign_connection_id Connection.set_flags
    Connection.new_connection run post_datapath register_datapath set_main_connection find_aux
    modify destroy_within let_go shut release_datapath release_connection find_conn_iter lower_bound
    Connection.shutdown
ended = after (destroy 5 both)

ended_alone :
    (ended.store 9 >>= (λ c. some (if c.shutdown_called then c.main_conn else 0))) ≡ some 9
unfolding ended
ended_alone = refl

ended_free : ended.dpid_map 77 ≡ none
unfolding ended
ended_free = refl

ended_list : ended.conn_list ≡ 9 ∷ []
unfolding ended
ended_list = refl

-- Servers have numbers as connections do, and are closed by them.
servers : (register_server 3 both >>= (λ (e, id). close id 0 e >>= (λ (f, n). some n))) ≡ some 1
unfolding create register_connection assign_connection_id Connection.set_flags
    Connection.new_connection run post_datapath register_datapath set_main_connection find_aux
    modify register_server close close_server
servers = refl

all_closed : (close_all both >>= (λ (e, n). some n)) ≡ some 2
unfolding create register_connection assign_connection_id Connection.set_flags
    Connection.new_connection run post_datapath register_datapath set_main_connection find_aux
    modify close_all close_connection shut Connection.shutdown
all_closed = refl

first-Reached : Reached first
unfolding create register_connection assign_connection_id Connection.set_flags
    Connection.new_connection run is_allowed
first-Reached = next begun (create_at true 5 0 3 100) refl refl

second-Reached : Reached second
unfolding create register_connection assign_connection_id Connection.set_flags
    Connection.new_connection run is_allowed
second-Reached = next first-Reached (create_at true 9 0 1 100) refl refl

third-Reached : Reached third
unfolding create register_connection assign_connection_id Connection.set_flags
    Connection.new_connection run is_allowed post_datapath register_datapath modify
third-Reached = next second-Reached (post 5 77 0) refl refl

both-Reached : Reached both
unfolding create register_connection assign_connection_id Connection.set_flags
    Connection.new_connection run is_allowed post_datapath register_datapath modify
    set_main_connection find_aux
both-Reached = next third-Reached (post 9 77 1) refl refl

Reached-run_example : (f : Engine) × (run (destroy_at 5) both ≡ some f) × Reached f
unfolding create register_connection assign_connection_id Connection.set_flags
    Connection.new_connection run is_allowed post_datapath register_datapath modify
    set_main_connection find_aux
Reached-run_example = Reached-run both-Reached (destroy_at 5) refl

Reached-find_example :
    (o : Option ℕ) × (find_datapath 2 0 both ≡ some o) × ((a : ℕ) → (o ≡ some a) ↔ Finds both 2 0 a)
Reached-find_example = Reached-find both-Reached 2 0

post_datapath-replaces_example :
    (f : Engine) × (gone : Connection) × (post_datapath 9 77 0 third ≡ some (f, true))
    × (find_datapath 0 77 f ≡ some (some 9))
    × (f.store 5 ≡ some gone)
    × (gone.shutdown_called ≡ true)
    × (gone.is_open ≡ false)
    × (gone.channel_up ≡ false)
    × (gone.events ≡ [])
    × (release_datapath 5 f ≡ some f)
unfolding create register_connection assign_connection_id Connection.set_flags
    Connection.new_connection run post_datapath register_datapath modify
post_datapath-replaces_example =
    post_datapath-replaces third-Reached 9 77 5
      (Connection.set_flags 0 1 (Connection.new_connection true 9 2 100))
      (record (Connection.set_flags 0 3 (Connection.new_connection true 5 1 100)) {
        datapath_id = 77;
      })
      refl refl (λ h. omega arith) refl refl refl refl

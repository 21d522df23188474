-- ===== src/Hub/Registry.antt =====
-- cmd/aegishub/main.go: who is registered over which connection. A connection and its encoders are
-- one number; `shut` lists the connections that the hub closed.
use aegis_claw.Base.{
  ℕ, ◌+◌, Bool, true, false, ◌&&◌, List, ◌∷◌, ◌++◌, Option, none, some, if◌then◌else◌, ◌==◌,
}
use aegis_claw.Base.Text.{Text, text, same, same_refl, eq_of_same}
use aegis_claw.Base.Decimal.{decimal}
use aegis_claw.Base.Assoc.{Key, lookup, insert, delete}

abbrev pub id_key : Key Text
id_key = record { beq = same; beq_refl = same_refl; eq_of_beq = eq_of_same }

pub record Component : Type 0 where
  pub public_key : Text
  pub conn : ℕ
  pub version : Text

pub record Registry : Type 0 where
  pub registered : List (Text × Component)
  pub conns : List (Text × ℕ)
  pub temp_conn_counter : ℕ
  pub shut : List ℕ

abbrev pub component : Registry → Text → Option Component
component r id = lookup id_key id r.registered

abbrev pub is_registered : Registry → Text → Bool
is_registered r id = elim (component r id) [ none ↦ false | some c ↦ true ]

-- A second daemon connection gets a temporary id; every other source keeps its own.
unfoldable pub assign_id : Registry → Text → Registry × Text
assign_id r source =
    if same source (text "daemon") && is_registered r source
    then (
      record r { temp_conn_counter = r.temp_conn_counter + 1 },
      text "daemon-temp-" ++ decimal (r.temp_conn_counter + 1),
    )
    else (r, source)

-- Close what conns.Swap gave back, unless it is the same connection.
abbrev pub close_old : Option ℕ → ℕ → List ℕ → List ℕ
close_old none conn shut = shut
close_old (some old) conn shut = if old == conn then shut else old ∷ shut

abbrev pub enter : Registry → Text → Component → Registry
enter r id c = record r {
  registered = insert id_key id c r.registered;
  conns = insert id_key id c.conn r.conns;
  shut = close_old (lookup id_key id r.conns) c.conn r.shut;
}

-- The registration after the handshake's checks: the new registry and the assigned id.
unfoldable pub register : Registry → Text → Component → Registry × Text
unfolding assign_id
register r source c = let (r', id) = assign_id r source in (enter r' id c, id)

abbrev pub owns : Option Component → ℕ → Bool
owns none conn = false
owns (some c) conn = c.conn == conn

abbrev pub holds : Option ℕ → ℕ → Bool
holds none conn = false
holds (some c) conn = c == conn

-- The deferred clean-up of a connection: only its own entries go.
unfoldable pub cleanup : Registry → Text → ℕ → Registry
cleanup r id conn = record r {
  registered = if owns (component r id) conn then delete id_key id r.registered else r.registered;
  conns = if holds (lookup id_key id r.conns) conn then delete id_key id r.conns else r.conns;
}

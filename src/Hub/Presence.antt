-- ===== src/Hub/Presence.antt =====
-- Registrations and clean-ups in any order.
use mathlib.Core.List.{append_cancel_left}
use aegis_claw.Base.{
  ℕ, ◌+◌, ◌≡◌, refl, sym, ap, ◌∙◌, inl, inr, ◌≢◌, Bool, true, false, ◌&&◌, List, [], ◌∷◌, ◌++◌,
  Option, none, some, arith, Bool-cases, if◌then◌else◌, ◌==◌,
}
use aegis_claw.Base.Text.{Text, text, same, same_refl}
use aegis_claw.Base.Decimal.{decimal, decimal-injective}
use aegis_claw.Base.Assoc.{lookup, lookup-insert, lookup-delete}
use aegis_claw.Hub.Registry.{
  id_key, Component, Registry, component, is_registered, assign_id, close_old, enter, register,
  owns, holds, cleanup,
}

-- What changes the registry: a hello with the id that it claims, or the end of a connection that was
-- given an id.
pub data Event : Type 0 where
  hello : Text → Component → Event
  ended : Text → ℕ → Event

unfoldable pub handle : Registry → Event → Registry
handle r (hello source c) = (register r source c).0
handle r (ended id conn) = cleanup r id conn

unfoldable pub run : Registry → List Event → Registry
run r [] = r
run r (e ∷ es) = run (handle r e) es

abbrev pub conn_of : Option Component → Option ℕ
conn_of none = none
conn_of (some c) = some c.conn

-- The two tables agree: an id has a connection exactly if it is registered, and it is the
-- component's.
abbrev pub IsAgreed : Registry → Type 0
IsAgreed r = (id : Text) → lookup id_key id r.conns ≡ conn_of (component r id)

conn_of-if :
    (b : Bool) (x y : Option Component)
    → conn_of (if b then x else y) ≡ (if b then conn_of x else conn_of y)
conn_of-if true x y = refl
conn_of-if false x y = refl

holds-owns : (o : Option Component) (conn : ℕ) → holds (conn_of o) conn ≡ owns o conn
holds-owns none conn = refl
holds-owns (some c) conn = refl

enter-IsAgreed : (r : Registry) (id : Text) (c : Component) → IsAgreed r → IsAgreed (enter r id c)
enter-IsAgreed r id c h k =
    ground (
      arith,
      lookup-insert id_key id k c r.registered,
      lookup-insert id_key id k c.conn r.conns,
      h k,
    )

cleanup-IsAgreed : (r : Registry) (id : Text) (conn : ℕ) → IsAgreed r → IsAgreed (cleanup r id conn)
unfolding cleanup
cleanup-IsAgreed r id conn h k = ground (
  arith,
  lookup-delete id_key id k r.registered,
  lookup-delete id_key id k r.conns,
  h k,
  h id,
  holds-owns (component r id) conn,
)

handle-IsAgreed : (r : Registry) (e : Event) → IsAgreed r → IsAgreed (handle r e)
unfolding handle register assign_id
handle-IsAgreed r (hello source c) h =
    elim (Bool-cases (same source (text "daemon") && is_registered r source)) [
      | inl t ↦
          let temp = text "daemon-temp-" ++ decimal (r.temp_conn_counter + 1) in
          rw t (enter-IsAgreed (record r { temp_conn_counter = r.temp_conn_counter + 1 }) temp c h)
      | inr t ↦ rw t (enter-IsAgreed r source c h)
    ]
handle-IsAgreed r (ended id conn) h = cleanup-IsAgreed r id conn h

abbrev pub no_registry : Registry
no_registry = record { registered = []; conns = []; temp_conn_counter = 0; shut = [] }

run_from-IsAgreed : (r : Registry) (es : List Event) → IsAgreed r → IsAgreed (run r es)
unfolding run
run_from-IsAgreed r [] h = h
run_from-IsAgreed r (e ∷ es) h = run_from-IsAgreed (handle r e) es (handle-IsAgreed r e h)

no_registry-IsAgreed : IsAgreed no_registry
unfolding lookup
no_registry-IsAgreed id = refl

-- After any sequence of registrations and ends of connections, the table of connections and the
-- table of components agree on every id.
pub run-IsAgreed :
    (es : List Event) (id : Text)
    → lookup id_key id (run no_registry es).conns
      ≡ conn_of (lookup id_key id (run no_registry es).registered)
run-IsAgreed es = run_from-IsAgreed no_registry es no_registry-IsAgreed

assigned :
    (r : Registry) (source : Text) (c : Component)
    → let (r', id) = register r source c in
      (component r' id ≡ some c) × (r'.shut ≡ close_old (lookup id_key id r.conns) c.conn r.shut)
unfolding register assign_id
assigned r source c = elim (Bool-cases (same source (text "daemon") && is_registered r source)) [
  | inl t ↦
      let temp = text "daemon-temp-" ++ decimal (r.temp_conn_counter + 1) in
      rw t (ground (arith, lookup-insert id_key temp temp c r.registered, same_refl temp), refl)
  | inr t ↦
      rw t
        (ground (arith, lookup-insert id_key source source c r.registered, same_refl source), refl)
]

-- A connection that another one replaced is shut, and its late clean-up leaves the new component
-- registered.
pub late_cleanup_keeps :
    (r : Registry) (source : Text) (c : Component) (old : ℕ)
    → (old == c.conn) ≡ false
    → let (r', id) = register r source c in
      (component (cleanup r' id old) id ≡ some c)
      × (lookup id_key id r.conns ≡ some old → r'.shut ≡ old ∷ r.shut)
unfolding cleanup
late_cleanup_keeps r source c old h =
    let (here, shut) = assigned r source c in (ground (arith, here), λ e. shut ∙ rw (e, h) refl)

abbrev temp_id : ℕ → Text
temp_id n = text "daemon-temp-" ++ decimal n

temp_id_apart : (n : ℕ) → same (temp_id n) (text "daemon") ≡ false
unfolding same
temp_id_apart n = refl

temp_id-injective : (m n : ℕ) → temp_id m ≡ temp_id n → m ≡ n
temp_id-injective m n e =
    decimal-injective m n (append_cancel_left (text "daemon-temp-") (decimal m) (decimal n) e)

fresh_daemon :
    (r : Registry) (c : Component)
    → is_registered r (text "daemon") ≡ true
    → register r (text "daemon") c ≡ (
      enter
          (record r { temp_conn_counter = r.temp_conn_counter + 1 })
          (temp_id (r.temp_conn_counter + 1))
          c,
      temp_id (r.temp_conn_counter + 1),
    )
unfolding register assign_id same
fresh_daemon r c h = rw h refl

enter_keeps_daemon :
    (r : Registry) (n : ℕ) (c : Component)
    → component (enter r (temp_id n) c) (text "daemon") ≡ component r (text "daemon")
enter_keeps_daemon r n c =
    lookup-insert id_key (temp_id n) (text "daemon") c r.registered ∙ rw (temp_id_apart n) refl

-- A second connection that registers as the daemon leaves the daemon registered as it was and gets
-- an id of its own, and a third one gets another.
pub second_daemon_apart :
    (r : Registry) (c d : Component)
    → is_registered r (text "daemon") ≡ true
    → let (r', id) = register r (text "daemon") c in
      let (r'', id') = register r' (text "daemon") d in
      (component r'' (text "daemon") ≡ component r (text "daemon"))
      × (id ≢ text "daemon")
      × (id' ≢ id)
second_daemon_apart r c d h = rw (fresh_daemon r c h, fresh_daemon r' d h') (kept, own, other)
  where
    n : ℕ
    n = r.temp_conn_counter

    r' : Registry
    r' = enter (record r { temp_conn_counter = n + 1 }) (temp_id (n + 1)) c

    h' : is_registered r' (text "daemon") ≡ true
    h' = rw (is_registered, enter_keeps_daemon (record r { temp_conn_counter = n + 1 }) (n + 1) c) h

    kept :
        component
          (enter (record r' { temp_conn_counter = n + 1 + 1 }) (temp_id (n + 1 + 1)) d)
          (text "daemon")
        ≡ component r (text "daemon")
    kept =
        enter_keeps_daemon (record r' { temp_conn_counter = n + 1 + 1 }) (n + 1 + 1) d
        ∙ enter_keeps_daemon (record r { temp_conn_counter = n + 1 }) (n + 1) c

    own : temp_id (n + 1) ≢ text "daemon"
    own e = cc (
        sym (temp_id_apart (n + 1))
        ∙ ap (λ t. same t (text "daemon")) e
        ∙ same_refl (text "daemon"))

    other : temp_id (n + 1 + 1) ≢ temp_id (n + 1)
    other e = omega (arith, temp_id-injective (n + 1 + 1) (n + 1) e)

-- ===== src/Store/Timers.antt =====
-- cmd/store/main.go and store_dispatch.go: grants, background work and timers, kept in files that are
-- read again for each command, and their reconciliation.
pub mod Expiry
use aegis_claw.Base.{
  Bool, true, false, ◌&&◌, ◌||◌, List, [], ◌∷◌, Option, none, some, if◌then◌else◌, ltb, ◌==◌,
}
use aegis_claw.Base.Text.{Text, text, same}
use aegis_claw.Base.Json.{
  Json, null, str, arr, obj, Items, nil, cons, Fields, end, field, get, put, has_key,
}
use aegis_claw.Channel.Sequence.{object_of}
use aegis_claw.Store.World.{Request, Response, World, reply, one, send, values_of, written}
use aegis_claw.Store.Proposals.{file_map, load_grants}
use aegis_claw.Store.Records.{with_string}

-- s < t on Go strings: byte by byte, a proper prefix first.
unfoldable pub text_lt : Text → Text → Bool
text_lt s [] = false
text_lt [] (d ∷ t) = true
text_lt (c ∷ s) (d ∷ t) = ltb c d || (c == d && text_lt s t)

abbrev pub expires_before : Text → Json → Bool
expires_before now (str e) = text_lt e now
expires_before now _ = false

abbrev record_expired : Text → Option Fields → Bool
record_expired now none = false
record_expired now (some m) = expires_before now (get m (text "expires"))

-- The test of the three reconciliation loops; an "expires" that is missing is no string.
unfoldable pub is_expired : Text → Json → Bool
unfolding text_lt
is_expired now v = record_expired now (object_of v)

-- expired = append(expired, id), in the order of the map.
unfoldable pub expired_ids : Text → Fields → List Text
expired_ids now end = []
expired_ids now (field id v m) =
    let rest = expired_ids now m in if is_expired now v then id ∷ rest else rest

-- delete(m, id) for the expired ids.
unfoldable pub unexpired : Text → Fields → Fields
unexpired now end = end
unexpired now (field id v m) =
    let rest = unexpired now m in if is_expired now v then rest else field id v rest

abbrev pub save_file : Text → Fields → World → World
save_file name m w = record w { files = written w name (obj m) w.files }

abbrev pub saved_unexpired : Text → Text → Fields → List Text → World → World
saved_unexpired name now m [] w = w
saved_unexpired name now m (id ∷ ids) w = save_file name (unexpired now m) w

abbrev pub reconcile : Text → Text → World → World × List Text
reconcile name now w =
    let m = file_map (get w.files name) in
    (saved_unexpired name now m (expired_ids now m) w, expired_ids now m)

unfoldable pub reconcile_expired_autonomy : Text → World → World × List Text
reconcile_expired_autonomy now w = reconcile (text "grants.json") now w

unfoldable pub reconcile_expired_background_work : Text → World → World × List Text
reconcile_expired_background_work now w = reconcile (text "background.json") now w

unfoldable pub reconcile_expired_timers : Text → World → World × List Text
reconcile_expired_timers now w = reconcile (text "timers.json") now w

pub record Expired : Type 0 where
  pub autonomy : List Text
  pub background : List Text
  pub timers : List Text

abbrev pub reconcile_all : Text → World → World × Expired
reconcile_all now w =
    let (w1, autonomy) = reconcile_expired_autonomy now w in
    let (w2, background) = reconcile_expired_background_work now w1 in
    let (w3, timers) = reconcile_expired_timers now w2 in
    (w3, record { autonomy = autonomy; background = background; timers = timers })

abbrev texts : List Text → Items
texts [] = nil
texts (t ∷ ts) = cons (str t) (texts ts)

-- A nil slice is encoded as null.
abbrev id_list : List Text → Json
id_list [] = null
id_list (t ∷ ts) = arr (texts (t ∷ ts))

unfoldable pub on_reconcile : Request → World → World × Response
on_reconcile r w =
    let (w', e) = reconcile_all r.env.now w in
    (
      w',
      reply (text "reconcile.done") (
          obj (
            field (text "autonomy_expired") (id_list e.autonomy) (
              field (text "background_expired") (id_list e.background) (
                field (text "timers_expired") (id_list e.timers) (
                  field (text "note")
                    (str (text "authoritative reconciliation from Store VM (Phase 2)")) end))))),
    )

-- publishExpirationEvent for each id.
unfoldable pub publish : Text → Text → Text → List Text → World → World
publish event key ts [] w = w
publish event key ts (id ∷ ids) w = publish event key ts ids (
    send (text "hub") (text "event.publish")
      (obj (
        field (text "event") (str event) (
          field (text "payload")
            (obj (field key (str id) (field (text "reason") (str (text "store_timer")) end))) end)))
      ts w)

-- The drain of the reconciliation signal in the loop of runStore.
unfoldable pub on_tick : Request → World → World
unfolding publish
on_tick r w =
    let (w', e) = reconcile_all r.env.now w in
    publish (text "timer.fired") (text "timer_id") r.timestamp e.timers (
      publish (text "background.expired") (text "session_id") r.timestamp e.background
        (publish (text "autonomy.expired") (text "session_id") r.timestamp e.autonomy w'))

abbrev pub load_timers : World → Fields
load_timers w = file_map (get w.files (text "timers.json"))

unfoldable pub schedule_timer : Text → Text → Fields → World → World
schedule_timer now id metadata w =
    save_file (text "timers.json")
      (put (load_timers w) id (obj (put metadata (text "scheduled_at") (str now)))) w

-- delete(m, key)
unfoldable pub remove_key : Text → Fields → Fields
remove_key key end = end
remove_key key (field k v m) =
    let rest = remove_key key m in if same k key then rest else field k v rest

unfoldable pub cancel_timer : Text → World → World
cancel_timer id w = save_file (text "timers.json") (remove_key id (load_timers w)) w

unfoldable pub on_timer_schedule : Request → World → World × Response
on_timer_schedule r w = with_string r (text "id") w (λ payload id. (
  schedule_timer r.env.now id payload w,
  reply (text "timer.scheduled") (obj (one (text "id") (str id))),
))

unfoldable pub on_timer_cancel : Request → World → World × Response
on_timer_cancel r w = with_string r (text "id") w (λ payload id.
    (cancel_timer id w, reply (text "timer.cancelled") (obj (one (text "id") (str id)))))

abbrev with_id : Text → Option Fields → Items → Items
with_id id none rest = rest
with_id id (some t) rest = cons (obj (put t (text "id") (str id))) rest

unfoldable pub timer_items : Fields → Items
timer_items end = nil
timer_items (field id t m) = with_id id (object_of t) (timer_items m)

unfoldable pub on_timer_list : World → World × Response
on_timer_list w = (w, reply (text "timer.list") (arr (timer_items (load_timers w))))

abbrev grant_record : Text → Text → Fields → Fields
grant_record session_id ts payload =
    let g = field (text "session_id") (str session_id) (
      field (text "preset") (get payload (text "preset")) (
        field (text "expires") (get payload (text "expires"))
          (field (text "granted_at") (str ts) end))) in
    if has_key payload (text "scopes")
    then put g (text "scopes") (get payload (text "scopes"))
    else g

unfoldable pub on_autonomy_grant : Request → World → World × Response
on_autonomy_grant r w = with_string r (text "session_id") w (λ payload session_id. (
  save_file (text "grants.json")
      (put (load_grants w) session_id (obj (grant_record session_id r.timestamp payload))) w,
  reply (text "autonomy.granted") (obj (one (text "session_id") (str session_id))),
))

unfoldable pub on_grant_list : World → World × Response
on_grant_list w = (w, reply (text "grant.list") (arr (values_of (load_grants w))))

unfoldable pub on_grant_get : Request → World → World × Response
on_grant_get r w =
    with_string r (text "session_id") w
      (λ payload session_id. (w, reply (text "grant.get") (get (load_grants w) session_id)))

-- ===== src/Store/Channels.antt =====
-- cmd/store: channel.create (channel_create.go), and the cases of dispatchStoreCommand that keep
-- channels, their members and their messages (store_dispatch.go).
pub mod Post
use aegis_claw.Base.{ℕ, true, not, ◌++◌, none, some, if◌then◌else◌}
use aegis_claw.Base.Text.{Text, text}
use aegis_claw.Base.Json.{
  pos, Json, boolean, int, str, arr, obj, Items, nil, cons, Fields, end, field, get, put, as_string,
}
use aegis_claw.Channel.Sequence.{int_of, object_of, next_channel_seq}
use aegis_claw.Ids.ChannelId.{max_channel_id_len, validate_channel_id}
use aegis_claw.Base.Decimal.{decimal}
use aegis_claw.Store.Payload.{
  Opt, present, missing, must, must_payload, must_channel_id, must_stored_array, opt_string,
  opt_array,
}
use aegis_claw.Store.World.{
  Request, Response, World, reply, error, okay, or_error, one, send, save_to_file, values_of,
  append_item,
}
use aegis_claw.Store.Records.{with_string, put_missing}
use aegis_claw.Store.Members.{
  ensure_member_defaults, with_defaults, items_of, prepare_channel_record, message_content,
}

abbrev pub keep_channel : Text → Fields → World → World
keep_channel id ch w =
    let channels = put w.channels id (obj ch) in
    save_to_file (text "channels.json") channels (record w { channels = channels })

abbrev pm_member : Text → Fields
pm_member ts =
    ensure_member_defaults
      (field (text "role") (str (text "project-manager")) (field (text "added_at") (str ts) end))

-- The members that the channel gets.
abbrev pub initial_members : Text → Opt Items → Items
initial_members ts missing = cons (obj (pm_member ts)) nil
initial_members ts (present nil) = cons (obj (pm_member ts)) nil
initial_members ts (present (cons item rest)) = with_defaults (cons item rest)

abbrev pub created_channel : Text → Opt Items → Fields → Fields
created_channel ts members payload =
    let dated = put_missing (text "created_at") (str ts) payload in
    let peopled = put dated (text "members") (arr (initial_members ts members)) in
    put (put_missing (text "messages") (arr nil) peopled) (text "next_seq") (int (pos 1))

abbrev invalid_channel_id : Text
invalid_channel_id =
    text "invalid channel id: must match ^[a-z][a-z0-9-]*$ and be <= "
    ++ (decimal max_channel_id_len ++ text " chars")

unfoldable pub handle_channel_create : Request → World → World × Response
handle_channel_create r w =
    let command = text "channel.create" in
    or_error w (must_payload command r.payload) (λ payload.
      or_error w (must command (opt_string payload (text "id"))) (λ id.
        if not (validate_channel_id id)
        then (w, error invalid_channel_id)
        else or_error w (must command (opt_array payload (text "members"))) (λ members. (
          keep_channel id (created_channel r.timestamp members payload) w,
          reply (text "channel.created") (obj (one (text "id") (str id))),
        ))))

unfoldable pub on_channel_list : World → World × Response
on_channel_list w = (w, reply (text "channel.list") (arr (values_of w.channels)))

-- The payload and its channel id, or the error reply.
abbrev pub with_channel : Request → World → (Fields → Text → World × Response) → World × Response
with_channel r w f =
    or_error w (must_payload r.command r.payload)
      (λ payload. or_error w (must_channel_id r.command payload) (λ id. f payload id))

-- Kept in memory; the file is written at the next change.
abbrev prepared_in : Text → World → World
prepared_in id w = elim (object_of (get w.channels id)) [
  | some ch ↦ record w { channels = put w.channels id (obj (prepare_channel_record ch)) }
  | none ↦ w
]

unfoldable pub on_channel_get : Request → World → World × Response
on_channel_get r w = with_channel r w (λ payload id.
    let w' = prepared_in id w in (w', reply (text "channel.data") (get w'.channels id)))

abbrev pub channel_reply : Text → Text → Response
channel_reply command id = reply command (obj (one (text "channel_id") (str id)))

-- What is done with the stored channel, if there is one, before the reply.
abbrev pub on_stored : Text → World → (Fields → World × Response) → Response → World × Response
on_stored id w f done = elim (object_of (get w.channels id)) [ some ch ↦ f ch | none ↦ (w, done) ]

abbrev pub entry_of : Request → Fields → ℕ → Json
entry_of r payload seq = obj (
    field (text "ts") (str r.timestamp) (
      field (text "seq") (int (int_of seq)) (
        field (text "from") (get payload (text "from"))
          (field (text "content") (get payload (text "content")) end))))

abbrev updated : Text → Text → Text → ℕ → Json
updated id from content seq = obj (
    field (text "channel_id") (str id) (
      field (text "from") (str from)
        (field (text "content") (str content) (field (text "seq") (int (int_of seq)) end))))

abbrev emit_channel_updated : Text → Text → Text → Text → ℕ → World → World
emit_channel_updated ts id from content seq w =
    send (text "channel-facilitator") (text "channel.updated") (updated id from content seq) ts (
      send (text "daemon-orchestrator") (text "channel.updated") (updated id from content seq) ts w)

-- The channel with the new message, and the message's number.
unfoldable pub posted_channel : Request → Fields → Fields → Fields × ℕ
posted_channel r payload ch =
    let (counted, seq) = next_channel_seq (prepare_channel_record ch) in
    let msgs = items_of (get counted (text "messages")) in
    (put counted (text "messages") (arr (append_item msgs (entry_of r payload seq))), seq)

unfoldable pub on_channel_post : Request → World → World × Response
on_channel_post r w = with_string r (text "channel_id") w (λ payload id.
    on_stored id w
      (λ ch. or_error w (must_stored_array ch (text "messages")) (λ msgs.
        let (ch', seq) = posted_channel r payload ch in
        (
          emit_channel_updated r.timestamp id (as_string (get payload (text "from")))
              (message_content (one (text "content") (get payload (text "content")))) seq
              (keep_channel id ch' w),
          okay (text "channel.posted"),
        )))
      (okay (text "channel.posted")))

unfoldable pub on_channel_archive : Request → World → World × Response
on_channel_archive r w = with_channel r w (λ payload id.
    let done = channel_reply (text "channel.archived") id in
    on_stored id w
      (λ ch. (
        keep_channel id
            (put (put ch (text "archived") (boolean true)) (text "archived_at") (str r.timestamp))
            w,
        done,
      ))
      done)

-- ===== src/Store/Fixture.antt =====
-- A Store with nothing in it, answers of the system, and messages.
use aegis_claw.Base.{ℕ, true, false, [], none}
use aegis_claw.Base.Text.{Text, text}
use aegis_claw.Base.Json.{
  pos, Json, boolean, int, str, arr, obj, Items, nil, cons, Fields, end, field,
}
use aegis_claw.Permissions.Types.{new_state}
use aegis_claw.Store.Payload.{Result, fail}
use aegis_claw.Store.World.{Git, Env, Request, World}

abbrev pub start : World
start = record {
  proposals = end;
  skills = end;
  memories = end;
  prs = end;
  teams = end;
  channels = end;
  revocations = end;
  audit_log = nil;
  permissions = new_state;
  permissions_file = none;
  files = end;
  saved = end;
  write_file = λ name old v. v;
  sent = [];
  ref_updates = [];
}

-- A git that has the repository and the commit, and no main yet.
abbrev pub willing_git : Git
willing_git = record {
  head_exists = λ bare. true;
  cat_file = λ bare sha. none;
  rev_parse_main = λ bare. none;
  is_ancestor = λ bare old sha. true;
  update_ref_main = λ bare sha. none;
}

abbrev sprint : Json → Text
sprint (str s) = s
sprint _ = text "?"

abbrev build_blob : Fields → Text → Result Json
build_blob secrets key = fail (text "no cipher")

abbrev pub env : Env
env = record {
  now = text "2026-01-02T00:00:00Z";
  nano = 7;
  hash = λ log. text "root";
  sprint = sprint;
  git = willing_git;
  init_bare = λ bare. none;
  sym_key = [];
  build_blob = build_blob;
  letters = λ s. false;
  writable = true;
  version = text "dev";
  outside = none;
}

abbrev pub message : Text → Text → Json → Request
message source command payload = record {
  source = source;
  command = command;
  payload = payload;
  timestamp = text "2026-01-02T00:00:00Z";
  tick = false;
  env = env;
}

abbrev pub created : Request
created =
    message (text "store") (text "proposal.create") (obj (field (text "id") (str (text "p1")) end))

abbrev pub signed_review : Fields
signed_review = field (text "proposal_id") (str (text "p1")) (
    field (text "votes") (obj end) (
      field (text "approved") (boolean true) (
        field (text "decision_merkle") (str (text "m"))
          (field (text "decision_sig") (str (text "s")) end))))

abbrev pub reviewed : Request
reviewed = message (text "court-scribe") (text "court.review_complete") (obj signed_review)

abbrev pub merged : Request
merged = message (text "store") (text "pr.merge") (
    obj (
      field (text "proposal_id") (str (text "p1")) (
        field (text "tenant") (str (text "t"))
          (field (text "repo") (str (text "r")) (field (text "sha") (str (text "abcdef0")) end)))))

abbrev pub approved_proposal : Fields
approved_proposal = field (text "id") (str (text "p1")) (
    field (text "state") (str (text "approved"))
      (field (text "reviews") (obj end) (field (text "court_decision") (obj signed_review) end)))

-- The Store once the Court has approved p1.
abbrev pub after_court : World
after_court = record start { proposals = field (text "p1") (obj approved_proposal) end }

abbrev pub agent : Text → Json → Request
agent command payload = message (text "agent-7") command payload

abbrev pub numbered_message : ℕ → Json
numbered_message n = obj (field (text "seq") (int (pos n)) end)

abbrev pub two_messages : Items
two_messages = cons (numbered_message 1) (cons (numbered_message 2) nil)

abbrev pub main_channel : Fields
main_channel =
    field (text "messages") (arr two_messages) (field (text "next_seq") (int (pos 3)) end)
